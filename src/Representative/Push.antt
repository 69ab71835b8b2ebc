-- ===== src/Representative/Push.antt =====
-- The wake state of the push engine and its scheduler (src/representative-push.ts): which replies
-- wake the host, and when. An instant is its number of milliseconds, so the order of ISO strings is
-- that of numbers. The rows of `wake_replies` are listed in the order that the query reads them.
pub mod Timer
pub mod Ack
pub mod Discovery
pub mod Engine
pub mod Trace
pub mod Acks
pub mod Merge
pub mod Cohorts
pub mod Recovery
pub mod Scans
mod Tests
pub mod Tick
pub mod Due
use borg_mcp_client.Prelude.{
  ℕ, ◌+◌, ◌-◌, ◌*◌, Bool, false, not, ◌||◌, Option, none, some, List, [], ◌∷◌, map, min, max, ltb,
  leb, if◌then◌else◌, is_some,
}
use Prim.Native.Nat.{◌^◌}
use borg_mcp_client.Prelude.{◌==◌ as nat_eq}
use borg_mcp_client.Prelude.Lists.{length, get_elem?, any, filter}
use borg_mcp_client.Text.{Text, ◌==◌, member}
use borg_mcp_client.Representative.Point.{Point}

abbrev pub wake_ack_deadline_ms : ℕ
wake_ack_deadline_ms = 60000

abbrev pub wake_debounce_ms : ℕ
wake_debounce_ms = 2000

abbrev pub minute_ms : ℕ
minute_ms = 60000

abbrev pub rewake_backoff : List ℕ
rewake_backoff = 10 * minute_ms ∷ 60 * minute_ms ∷ 360 * minute_ms ∷ 1440 * minute_ms ∷ []

abbrev pub refusal_backoff_base_ms : ℕ
refusal_backoff_base_ms = 30000

abbrev pub refusal_backoff_max_ms : ℕ
refusal_backoff_max_ms = 30 * minute_ms

abbrev pub max_future_ms : ℕ
max_future_ms = 1440 * minute_ms

pub data WakeReason : Type 0 where
  startup new_reply rewake : WakeReason

pub record Outstanding : Type 0 where
  pub batch : Text
  pub replies : List Text
  pub deadline : ℕ
  pub reason : WakeReason

pub record Refusals : Type 0 where
  pub count : ℕ
  pub retry_at : Option ℕ

pub record Cohort : Type 0 where
  pub remaining : ℕ
  pub is_open : Bool

pub record WakeDocument : Type 0 where
  pub frontier : Option Point
  pub outstanding : Option Outstanding
  pub refusals : Refusals
  pub cohort : Option Cohort
  pub startup_pending : Bool
  pub debounce_at : Option ℕ
  pub scan_epoch : Option Text

pub record WakeRow : Type 0 where
  pub entry_id : Text
  pub created_at : Text
  pub attempts : ℕ
  pub next_at : ℕ

-- The document of a generation with its rows.
pub record Wakes : Type 0 where
  pub doc : WakeDocument
  pub rows : List WakeRow

-- The index is in range, so that the default is never taken.
abbrev pub or_zero : Option ℕ → ℕ
or_zero none = 0
or_zero (some n) = n

unfoldable pub rewake_backoff_ms : ℕ → ℕ
rewake_backoff_ms attempts =
    or_zero (get_elem? rewake_backoff (min (max attempts 1) (length rewake_backoff) - 1))

unfoldable pub refusal_backoff_ms : ℕ → ℕ
refusal_backoff_ms count = min (refusal_backoff_base_ms * 2 ^ (count - 1)) refusal_backoff_max_ms

unfoldable pub empty_document : WakeDocument
empty_document = record {
  frontier = none;
  outstanding = none;
  refusals = record { count = 0; retry_at = none };
  cohort = none;
  startup_pending = false;
  debounce_at = none;
  scan_epoch = none;
}

-- `doc.cohort?.open === true`
abbrev pub cohort_open : Option Cohort → Bool
cohort_open none = false
cohort_open (some c) = c.is_open

abbrev pub clamp_option : ℕ → Option ℕ → Option ℕ
clamp_option limit none = none
clamp_option limit (some at) = if ltb limit at then some limit else some at

abbrev pub clamp_outstanding : ℕ → Option Outstanding → Option Outstanding
clamp_outstanding limit none = none
clamp_outstanding limit (some o) =
    if ltb limit o.deadline then some (record o { deadline = limit }) else some o

abbrev pub clamp_row : ℕ → WakeRow → WakeRow
clamp_row limit row = if ltb limit row.next_at then record row { next_at = limit } else row

-- Instants more than 24 h ahead become 24 h ahead.
unfoldable pub clamp : ℕ → Wakes → Wakes
clamp now w =
    let limit = now + max_future_ms in
    record {
      doc = record w.doc {
        outstanding = clamp_outstanding limit w.doc.outstanding;
        refusals = record w.doc.refusals { retry_at = clamp_option limit w.doc.refusals.retry_at };
        debounce_at = clamp_option limit w.doc.debounce_at;
      };
      rows = map (clamp_row limit) w.rows;
    }

-- an instant that is set and still ahead
abbrev pub is_ahead : ℕ → Option ℕ → Bool
is_ahead now none = false
is_ahead now (some at) = ltb now at

-- a batch whose deadline passed is dropped
abbrev pub unexpired : ℕ → Option Outstanding → Option Outstanding
unexpired now none = none
unexpired now (some o) = if leb o.deadline now then none else some o

abbrev pub expire : ℕ → WakeDocument → WakeDocument
expire now doc = record doc { outstanding = unexpired now doc.outstanding }

unfoldable pub is_blocked : ℕ → WakeDocument → Bool
is_blocked now doc =
    is_some doc.outstanding
    || (is_ahead now doc.refusals.retry_at
        || (cohort_open doc.cohort || is_ahead now doc.debounce_at))

abbrev pub is_due : ℕ → WakeRow → Bool
is_due now row = leb row.next_at now

abbrev pub is_new : WakeRow → Bool
is_new row = nat_eq row.attempts 0

unfoldable pub reason_of : Bool → List WakeRow → WakeReason
reason_of pending due = if pending then startup else if any is_new due then new_reply else rewake

unfoldable pub attempted : ℕ → WakeRow → WakeRow
unfolding rewake_backoff_ms
attempted now row = record row {
  attempts = row.attempts + 1;
  next_at = now + rewake_backoff_ms (row.attempts + 1);
}

-- Each due row is updated by its id, which is the key of the table.
abbrev pub attempt_due : ℕ → WakeRow → WakeRow
attempt_due now row = if is_due now row then attempted now row else row

pub record WakeEmission : Type 0 where
  pub wake_id : Text
  pub reason : WakeReason
  pub count : ℕ

abbrev pub passed_dropped : ℕ → Option ℕ → Option ℕ
passed_dropped now none = none
passed_dropped now (some at) = if leb at now then none else some at

abbrev pub entry_ids : List WakeRow → List Text
entry_ids due = map (λ row. row.entry_id) due

unfoldable pub emitted : ℕ → Text → Wakes → List WakeRow → Option WakeEmission × Wakes
unfolding reason_of attempted
emitted now batch w due =
    let reason = reason_of w.doc.startup_pending due in
    (
      some (record { wake_id = batch; reason = reason; count = length due }),
      record {
        doc = record w.doc {
          outstanding = some (record {
            batch = batch;
            replies = entry_ids due;
            deadline = now + wake_ack_deadline_ms;
            reason = reason;
          });
          startup_pending = false;
          debounce_at = none;
          refusals = record w.doc.refusals {
            retry_at = passed_dropped now w.doc.refusals.retry_at;
          };
        };
        rows = map (attempt_due now) w.rows;
      },
    )

abbrev pub emit_due : ℕ → Text → Wakes → List WakeRow → Option WakeEmission × Wakes
unfolding emitted
emit_due now batch w [] = (none, w)
emit_due now batch w (row ∷ due) = emitted now batch w (row ∷ due)

abbrev pub due_rows : ℕ → Wakes → List WakeRow
unfolding is_blocked
due_rows now w = if is_blocked now w.doc then [] else filter (is_due now) w.rows

abbrev pub expired : ℕ → Wakes → Wakes
unfolding clamp
expired now w = let c = clamp now w in record { doc = expire now c.doc; rows = c.rows }

-- One scheduler step; `batch` is the fresh id.
unfoldable pub tick : ℕ → Text → Wakes → Option WakeEmission × Wakes
unfolding clamp is_blocked emitted
tick now batch w = let e = expired now w in emit_due now batch e (due_rows now e)
