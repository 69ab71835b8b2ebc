-- ===== src/Representative/Push/Tick.antt =====
-- When a scheduler step wakes the host, and what it leaves (`tick` of src/representative-push.ts).
use borg_mcp_client.Prelude.{
  ℕ, ◌+◌, ◌≤◌, ◌≡◌, refl, ◌↔◌, true, false, Option, none, some, List, [], ◌∷◌, map, arith, is_some,
}
use borg_mcp_client.Prelude.Lists.{any, filter}
use borg_mcp_client.Text.{Text}
use borg_mcp_client.Representative.Push.{
  Outstanding, WakeDocument, WakeRow, Wakes, max_future_ms, clamp, clamp_row, clamp_option,
  clamp_outstanding, cohort_open, is_ahead, is_blocked, is_due, unexpired, expired, emitted,
  emit_due, tick,
}

-- An instant that is unset or not ahead of `now`.
abbrev pub Past : ℕ → Option ℕ → Type 0
Past now none = Unit
Past now (some at) = at ≤ now

abbrev pub deadline_of : Option Outstanding → Option ℕ
deadline_of none = none
deadline_of (some o) = some o.deadline

-- No batch is outstanding, the refusal backoff and the debounce are over, the cohort is closed.
abbrev pub Free : ℕ → WakeDocument → Type 0
Free now doc =
    Past now (deadline_of doc.outstanding)
    × Past now doc.refusals.retry_at
    × (cohort_open doc.cohort ≡ false)
    × Past now doc.debounce_at

is_ahead_iff : (now : ℕ) (at : Option ℕ) → (is_ahead now at ≡ false) ↔ Past now at
is_ahead_iff now none = ground arith
is_ahead_iff now (some at) = ground arith

pub is_ahead-clamp_option :
    (now : ℕ) (at : Option ℕ)
    → is_ahead now (clamp_option (now + max_future_ms) at) ≡ is_ahead now at
is_ahead-clamp_option now none = refl
is_ahead-clamp_option now (some at) = ground arith

pub unexpired_iff :
    (now : ℕ) (o : Option Outstanding)
    → (is_some (unexpired now (clamp_outstanding (now + max_future_ms) o)) ≡ false)
      ↔ Past now (deadline_of o)
unexpired_iff now none = ground arith
unexpired_iff now (some o) = ground arith

is_due-clamp_row :
    (now : ℕ) (row : WakeRow) → is_due now (clamp_row (now + max_future_ms) row) ≡ is_due now row
is_due-clamp_row now row = ground arith

any-clamp :
    (now : ℕ) (rows : List WakeRow)
    → any (is_due now) (map (clamp_row (now + max_future_ms)) rows) ≡ any (is_due now) rows
any-clamp now [] = refl
any-clamp now (row ∷ rows) = ground (arith, is_due-clamp_row now row, any-clamp now rows)

pub is_blocked_iff :
    (now : ℕ) (w : Wakes) → (is_blocked now (expired now w).doc ≡ false) ↔ Free now w.doc
unfolding is_blocked clamp
is_blocked_iff now w = ground (
  arith,
  unexpired_iff now w.doc.outstanding,
  is_ahead_iff now w.doc.refusals.retry_at,
  is_ahead-clamp_option now w.doc.refusals.retry_at,
  is_ahead_iff now w.doc.debounce_at,
  is_ahead-clamp_option now w.doc.debounce_at,
)

is_some-emit_due :
    (now : ℕ) (batch : Text) (w : Wakes) (rows : List WakeRow)
    → is_some (emit_due now batch w (filter (is_due now) rows)).0 ≡ any (is_due now) rows
unfolding emitted
is_some-emit_due now batch w [] = refl
is_some-emit_due now batch w (row ∷ rows) = ground (arith, is_some-emit_due now batch w rows)

-- A scheduler step wakes the host exactly when a reply is due, no batch is outstanding before its
-- deadline, no refusal backoff and no debounce is ahead, and the startup cohort is not open. That
-- is so on the state as it was stored: the clamping of far instants never changes it.
pub tick-emits_iff :
    (now : ℕ) (batch : Text) (w : Wakes)
    → (is_some (tick now batch w).0 ≡ true) ↔ (Free now w.doc × (any (is_due now) w.rows ≡ true))
unfolding tick is_blocked clamp emitted
tick-emits_iff now batch w = ground (
  arith,
  is_blocked_iff now w,
  any-clamp now w.rows,
  is_some-emit_due now batch (expired now w) (expired now w).rows,
)

pub tick_blocked :
    (now : ℕ) (batch : Text) (w : Wakes)
    → is_blocked now (expired now w).doc ≡ true
    → tick now batch w ≡ (none, expired now w)
unfolding tick clamp is_blocked emitted
tick_blocked now batch w h = rw h refl
