-- ===== src/Representative/Push/Timer.antt =====
-- The timer of the scheduler (`nextDueAt` of src/representative-push.ts).
use borg_mcp_client.Prelude.{
  ℕ, ◌+◌, Option, none, some, List, [], ◌∷◌, min, max, ltb, if◌then◌else◌,
}
use borg_mcp_client.Representative.Push.{Outstanding, WakeRow, Wakes, cohort_open, max_future_ms}

-- `Math.min(...)` over the rows; there is one
abbrev pub earliest : (ℕ → ℕ) → ℕ → List WakeRow → ℕ
earliest ms first [] = first
earliest ms first (row ∷ rows) = min first (earliest ms (ms row.next_at) rows)

abbrev pub not_before : (ℕ → ℕ) → Option ℕ → ℕ → ℕ
not_before ms none at = at
not_before ms (some debounce) at = max at (ms debounce)

abbrev pub due_of_rows : (ℕ → ℕ) → Option ℕ → List WakeRow → Option ℕ
due_of_rows ms debounce [] = none
due_of_rows ms debounce (row ∷ rows) =
    some (not_before ms debounce (earliest ms (ms row.next_at) rows))

abbrev pub due_unless_open : (ℕ → ℕ) → Wakes → Option ℕ
due_unless_open ms w =
    if cohort_open w.doc.cohort then none else due_of_rows ms w.doc.debounce_at w.rows

abbrev pub due_after_retry : ℕ → (ℕ → ℕ) → Wakes → Option ℕ → Option ℕ
due_after_retry now ms w none = due_unless_open ms w
due_after_retry now ms w (some retry) =
    if ltb now retry then some (ms retry) else due_unless_open ms w

abbrev pub due_after : ℕ → (ℕ → ℕ) → Wakes → Option Outstanding → Option ℕ
due_after now ms w none = due_after_retry now ms w w.doc.refusals.retry_at
due_after now ms w (some o) = some (ms o.deadline)

unfoldable pub next_due_at : ℕ → Wakes → Option ℕ
next_due_at now w = due_after now (λ at. min at (now + max_future_ms)) w w.doc.outstanding
