-- ===== src/Representative/Push/Due.antt =====
-- The timer of the scheduler: `nextDueAt` against `tick` (src/representative-push.ts).
use borg_mcp_client.Prelude.{
  ℕ, ◌+◌, ◌≤◌, ◌<◌, ◌≡◌, refl, true, false, Option, none, some, List, [], ◌∷◌, arith, is_some, ltb,
  min, ◌⊎◌, inl, inr, Bool-cases,
}
use borg_mcp_client.Prelude.Lists.{any, All}
use borg_mcp_client.Text.{Text}
use borg_mcp_client.Representative.Push.{
  Outstanding, WakeRow, Wakes, WakeEmission, max_future_ms, clamp, cohort_open, is_ahead,
  is_blocked, is_due, expired, emitted, emit_due, due_rows, tick,
}
use borg_mcp_client.Representative.Push.Timer.{
  next_due_at, earliest, due_of_rows, due_unless_open, due_after_retry, due_after,
}
use borg_mcp_client.Representative.Push.Tick.{Past, deadline_of, tick-emits_iff, unexpired_iff}

-- No answer, or an instant after `at`.
abbrev pub Before : ℕ → Option ℕ → Type 0
Before at none = Unit
Before at (some due) = at < due

earliest_first : (ms : ℕ → ℕ) (first : ℕ) (rows : List WakeRow) → earliest ms first rows ≤ first
earliest_first ms first [] = omega arith
earliest_first ms first (row ∷ rows) = omega arith

earliest_before :
    (ms : ℕ → ℕ) (at first : ℕ) (rows : List WakeRow)
    → ((a : ℕ) → ms a ≤ a)
    → at < earliest ms first rows
    → any (is_due at) rows ≡ false
earliest_before ms at first [] h k = refl
earliest_before ms at first (row ∷ rows) h k = ground (
  arith,
  h row.next_at,
  earliest_first ms (ms row.next_at) rows,
  earliest_before ms at (ms row.next_at) rows h,
)

due_of_rows-Before :
    (ms : ℕ → ℕ) (at : ℕ) (debounce : Option ℕ) (rows : List WakeRow)
    → ((a : ℕ) → ms a ≤ a)
    → Before at (due_of_rows ms debounce rows)
    → Past at debounce
    → any (is_due at) rows ≡ false
due_of_rows-Before ms at debounce [] h k p = refl
due_of_rows-Before ms at none (row ∷ rows) h k p = ground (
  arith,
  h row.next_at,
  earliest_first ms (ms row.next_at) rows,
  earliest_before ms at (ms row.next_at) rows h,
)
due_of_rows-Before ms at (some d) (row ∷ rows) h k p = ground (
  arith,
  h row.next_at,
  h d,
  earliest_first ms (ms row.next_at) rows,
  earliest_before ms at (ms row.next_at) rows h,
)

due_unless_open-Before :
    (ms : ℕ → ℕ) (at : ℕ) (w : Wakes)
    → ((a : ℕ) → ms a ≤ a)
    → Before at (due_unless_open ms w)
    → (cohort_open w.doc.cohort ≡ false)
    → Past at w.doc.debounce_at
    → any (is_due at) w.rows ≡ false
due_unless_open-Before ms at w h k c p =
    due_of_rows-Before ms at w.doc.debounce_at w.rows h (rw c at k) p

due_after_retry-Before :
    (now at : ℕ) (ms : ℕ → ℕ) (w : Wakes) (retry : Option ℕ)
    → now ≤ at
    → ((a : ℕ) → ms a ≤ a)
    → Before at (due_after_retry now ms w retry)
    → Past at retry
    → (cohort_open w.doc.cohort ≡ false)
    → Past at w.doc.debounce_at
    → any (is_due at) w.rows ≡ false
due_after_retry-Before now at ms w none le h k r c p = due_unless_open-Before ms at w h k c p
due_after_retry-Before now at ms w (some retry) le h k r c p = elim (Bool-cases (ltb now retry)) [
  | inl q ↦ let k' : at < ms retry = rw q at k in absurd (omega (arith, h retry))
  | inr q ↦ due_unless_open-Before ms at w h (rw q at k) c p
]

due_after-Before :
    (now at : ℕ) (ms : ℕ → ℕ) (w : Wakes) (o : Option Outstanding)
    → now ≤ at
    → ((a : ℕ) → ms a ≤ a)
    → Before at (due_after now ms w o)
    → Past at (deadline_of o)
    → Past at w.doc.refusals.retry_at
    → (cohort_open w.doc.cohort ≡ false)
    → Past at w.doc.debounce_at
    → any (is_due at) w.rows ≡ false
due_after-Before now at ms w none le h k d r c p =
    due_after_retry-Before now at ms w w.doc.refusals.retry_at le h k r c p
due_after-Before now at ms w (some o) le h k d r c p = absurd (omega (arith, h o.deadline))

-- Before the instant that `nextDueAt` names, and for ever when it names none, no scheduler step
-- wakes the host, if nothing else changes the state in between.
pub tick-Before_due :
    (now at : ℕ) (batch : Text) (w : Wakes)
    → now ≤ at
    → Before at (next_due_at now w)
    → is_some (tick at batch w).0 ≡ false
unfolding next_due_at
tick-Before_due now at batch w le k = elim (Bool-cases (is_some (tick at batch w).0)) [
  | inl e ↦
      let (f, due) = (tick-emits_iff at batch w).0 e in
      cc (
        due,
        due_after-Before now at (λ a. min a (now + max_future_ms)) w w.doc.outstanding le
            (λ a. omega arith) k f.0 f.1 f.2 f.3,
      )
  | inr e ↦ e
]

-- Every instant is at most 24 h ahead.
abbrev pub Clamped : ℕ → Wakes → Type 0
Clamped now w =
    Past (now + max_future_ms) (deadline_of w.doc.outstanding)
    × Past (now + max_future_ms) w.doc.refusals.retry_at
    × Past (now + max_future_ms) w.doc.debounce_at
    × All (λ row. row.next_at ≤ now + max_future_ms) w.rows

-- A wake, the end of an outstanding batch, or the end of a refusal backoff.
abbrev pub Progress : ℕ → ℕ → Wakes → Option WakeEmission × Wakes → Type 0
Progress now at w (wake, after) =
    (is_some wake ≡ true)
    ⊎ (((is_some w.doc.outstanding ≡ true) × (is_some after.doc.outstanding ≡ false))
        ⊎ ((is_ahead now w.doc.refusals.retry_at ≡ true)
            × (is_ahead at w.doc.refusals.retry_at ≡ false)))

earliest_due :
    (limit at first : ℕ) (rows : List WakeRow)
    → All (λ row. row.next_at ≤ limit) rows
    → earliest (λ a. min a limit) first rows ≤ at
    → (first ≤ at) ⊎ (any (is_due at) rows ≡ true)
earliest_due limit at first [] h k = inl k
earliest_due limit at first (row ∷ rows) (h, hs) k =
    ground (arith, earliest_due limit at (min row.next_at limit) rows hs)

due_of_rows_due :
    (limit at t : ℕ) (debounce : Option ℕ) (rows : List WakeRow)
    → All (λ row. row.next_at ≤ limit) rows
    → Past limit debounce
    → due_of_rows (λ a. min a limit) debounce rows ≡ some t
    → t ≤ at
    → Past at debounce × (any (is_due at) rows ≡ true)
due_of_rows_due limit at t debounce [] h p k le = cc
due_of_rows_due limit at t none (row ∷ rows) (h, hs) p k le =
    ground (arith, earliest_due limit at (min row.next_at limit) rows hs)
due_of_rows_due limit at t (some d) (row ∷ rows) (h, hs) p k le =
    ground (arith, earliest_due limit at (min row.next_at limit) rows hs)

unemitted :
    (now : ℕ) (batch : Text) (w : Wakes) (due : List WakeRow)
    → is_some (emit_due now batch w due).0 ≡ false
    → (emit_due now batch w due).1 ≡ w
unfolding emitted
unemitted now batch w [] h = refl
unemitted now batch w (row ∷ due) h = cc

tick-expires :
    (now : ℕ) (batch : Text) (w : Wakes)
    → is_some (tick now batch w).0 ≡ false
    → Past now (deadline_of w.doc.outstanding)
    → is_some (tick now batch w).1.doc.outstanding ≡ false
unfolding tick clamp is_blocked emitted
tick-expires now batch w h p =
    rw (unemitted now batch (expired now w) (due_rows now (expired now w)) h)
      ((unexpired_iff now w.doc.outstanding).1 p)

unless_open_due :
    (now at t : ℕ) (batch : Text) (w : Wakes)
    → Clamped now w
    → due_unless_open (λ a. min a (now + max_future_ms)) w ≡ some t
    → t ≤ at
    → Past at (deadline_of w.doc.outstanding)
    → Past at w.doc.refusals.retry_at
    → is_some (tick at batch w).0 ≡ true
unless_open_due now at t batch w (co, cr, cd, rows) k le o r =
    elim (Bool-cases (cohort_open w.doc.cohort)) [
      | inl q ↦ cc (rw q at k)
      | inr q ↦
          let (d, due) =
            due_of_rows_due (now + max_future_ms) at t w.doc.debounce_at w.rows rows cd (rw q at k)
              le in
          (tick-emits_iff at batch w).1 ((o, r, q, d), due)
    ]

after_retry_due :
    (now at t : ℕ) (batch : Text) (w : Wakes) (retry : Option ℕ)
    → w.doc.refusals.retry_at ≡ retry
    → Clamped now w
    → due_after_retry now (λ a. min a (now + max_future_ms)) w retry ≡ some t
    → t ≤ at
    → now ≤ at
    → Past at (deadline_of w.doc.outstanding)
    → Progress now at w (tick at batch w)
after_retry_due now at t batch w none e c k le now_le o =
    inl (unless_open_due now at t batch w c k le o (rw e tt))
after_retry_due now at t batch w (some retry) e (co, cr, cd, rows) k le now_le o =
    elim (Bool-cases (ltb now retry)) [
      | inl q ↦
          let k' : some (min retry (now + max_future_ms)) ≡ some t = rw q at k in
          let r : retry ≤ now + max_future_ms = rw e at cr in
          inr (inr (rw e q, rw e (ground arith)))
      | inr q ↦ inl (
          unless_open_due now at t batch w (co, cr, cd, rows) (rw q at k) le o
            (rw e (ground arith)))
    ]

after_due :
    (now at t : ℕ) (batch : Text) (w : Wakes) (o : Option Outstanding)
    → w.doc.outstanding ≡ o
    → Clamped now w
    → due_after now (λ a. min a (now + max_future_ms)) w o ≡ some t
    → t ≤ at
    → now ≤ at
    → Progress now at w (tick at batch w)
after_due now at t batch w none e c k le now_le =
    after_retry_due now at t batch w w.doc.refusals.retry_at refl c k le now_le (rw e tt)
after_due now at t batch w (some o) e c k le now_le =
    elim (Bool-cases (is_some (tick at batch w).0)) [
      | inl q ↦ inl q
      | inr q ↦
          inr (inl (rw e refl, tick-expires at batch w q (rw e (ground (arith, rw e at c.0)))))
    ]

-- At the instant that `nextDueAt` names, or later, a scheduler step gets on: it wakes the host, or
-- it ends the outstanding batch, or the refusal backoff is over. No instant of the state may be
-- more than 24 h ahead, as a step leaves it.
pub tick-at_due :
    (now at t : ℕ) (batch : Text) (w : Wakes)
    → Clamped now w
    → next_due_at now w ≡ some t
    → t ≤ at
    → now ≤ at
    → Progress now at w (tick at batch w)
unfolding next_due_at
tick-at_due now at t batch w c k le now_le =
    after_due now at t batch w w.doc.outstanding refl c k le now_le
