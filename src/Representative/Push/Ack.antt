-- ===== src/Representative/Push/Ack.antt =====
-- The acks of the host and the summary (`ack` and `summarize` of src/representative-push.ts).
use borg_mcp_client.Prelude.{
  ℕ, ◌+◌, ◌-◌, Bool, not, Option, none, some, List, map, leb, if◌then◌else◌,
}
use borg_mcp_client.Prelude.Lists.{length}
use borg_mcp_client.Text.{Text, ◌==◌, member}
use borg_mcp_client.Representative.Point.{Point}
use borg_mcp_client.Representative.Push.{
  Outstanding, Refusals, WakeDocument, WakeRow, Wakes, cohort_open, refusal_backoff_ms,
}

pub data AckOutcome : Type 0 where
  accepted refused ignored : AckOutcome

pub record Ack : Type 0 where
  pub wake_id : Text
  pub is_accepted : Bool

abbrev pub rolled_back : ℕ → List Text → WakeRow → WakeRow
rolled_back retry replies row =
    if member row.entry_id replies
    then record row { attempts = row.attempts - 1; next_at = retry }
    else row

unfoldable pub accept : WakeDocument → WakeDocument
accept doc = record doc { outstanding = none; refusals = record { count = 0; retry_at = none } }

unfoldable pub refuse : ℕ → Outstanding → Wakes → Wakes
unfolding refusal_backoff_ms
refuse now o w =
    let count = w.doc.refusals.count + 1 in
    let retry = now + refusal_backoff_ms count in
    record {
      doc = record w.doc {
        outstanding = none;
        refusals = record { count = count; retry_at = some retry };
      };
      rows = map (rolled_back retry o.replies) w.rows;
    }

abbrev pub settle_ack : ℕ → Ack → Outstanding → Wakes → AckOutcome × Wakes
unfolding accept refuse
settle_ack now a o w =
    if not (o.batch == a.wake_id)
    then (ignored, w)
    else if a.is_accepted
    then (accepted, record { doc = accept w.doc; rows = w.rows })
    else (refused, refuse now o w)

abbrev pub ack_outstanding : ℕ → Ack → Option Outstanding → Wakes → AckOutcome × Wakes
unfolding accept refuse
ack_outstanding now a none w = (ignored, w)
ack_outstanding now a (some o) w =
    if leb o.deadline now
    then (ignored, record { doc = record w.doc { outstanding = none }; rows = w.rows })
    else settle_ack now a o w

-- What a well-formed ack changes.
unfoldable pub ack : ℕ → Ack → Wakes → AckOutcome × Wakes
unfolding accept refuse
ack now a w = ack_outstanding now a w.doc.outstanding w

pub record WakeSummary : Type 0 where
  pub undelivered : ℕ
  pub outstanding : Option (Text × ℕ × ℕ)
  pub refusals : Refusals
  pub is_cohort_open : Bool
  pub frontier : Option Point

abbrev pub outstanding_summary : Option Outstanding → Option (Text × ℕ × ℕ)
outstanding_summary none = none
outstanding_summary (some o) = some (o.batch, length o.replies, o.deadline)

unfoldable pub summarize : Wakes → WakeSummary
summarize w = record {
  undelivered = length w.rows;
  outstanding = outstanding_summary w.doc.outstanding;
  refusals = w.doc.refusals;
  is_cohort_open = cohort_open w.doc.cohort;
  frontier = w.doc.frontier;
}
