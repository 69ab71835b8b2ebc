-- ===== src/Representative/Push/Trace/Bounds.antt =====
-- No instant of the wake state lies more than 24 h ahead (src/representative-push.ts).
use borg_mcp_client.Prelude.{
  ℕ, zero, suc, ◌+◌, ◌-◌, ◌≤◌, ◌≡◌, Bool, not, Option, none, some, List, [], ◌∷◌, arith, is_some,
  ◌&&◌, map, min, max, Bool-cases, inl, inr,
}
use borg_mcp_client.Prelude.Lists.{All, All-filter, All-map, All-weaken, length}
use borg_mcp_client.Prelude.{◌==◌ as nat_eq}
use borg_mcp_client.Representative.Delivery.{is_passed}
use borg_mcp_client.Text.{Text}
use borg_mcp_client.Representative.Binding.{RepresentativeBinding}
use borg_mcp_client.Representative.Point.{Point, later}
use borg_mcp_client.Representative.Read.{LogEntry, Page}
use borg_mcp_client.Representative.Push.{
  Outstanding, WakeDocument, WakeRow, Wakes, tick, clamp, is_blocked, emitted, emit_due, due_rows,
  expired, cohort_open, rewake_backoff_ms, refusal_backoff_ms, refusal_backoff_max_ms,
  max_future_ms, attempted, attempt_due, passed_dropped, clamp_row, clamp_option, clamp_outstanding,
  unexpired,
}
use borg_mcp_client.Representative.Push.Ack.{Ack, ack, accept, refuse, ack_outstanding, rolled_back}
use borg_mcp_client.Representative.Push.Tick.{Past, deadline_of}
use borg_mcp_client.Representative.Push.Due.{Clamped}
use borg_mcp_client.Representative.Push.Discovery.{
  merge_page, after_page, prune_rows, insert_entries, insert_or_ignore, insert_row, new_wake_row,
  is_covered, scan_cohort, tail_point, row_point,
}
use borg_mcp_client.Representative.Push.Trace.{
  Event, ticks, acks, merges, delivers, captures, step, run, capture,
}

pub rewake_backoff_ms_bound : (attempts : ℕ) → rewake_backoff_ms attempts ≤ max_future_ms
unfolding rewake_backoff_ms
rewake_backoff_ms_bound zero = omega arith
rewake_backoff_ms_bound (suc zero) = omega arith
rewake_backoff_ms_bound (suc (suc zero)) = omega arith
rewake_backoff_ms_bound (suc (suc (suc zero))) = omega arith
rewake_backoff_ms_bound (suc (suc (suc (suc n)))) =
    let e : min (max (suc (suc (suc (suc n)))) 1) 4 - 1 ≡ 3 = omega arith in rw e (omega arith)

pub refusal_backoff_ms_bound : (count : ℕ) → refusal_backoff_ms count ≤ refusal_backoff_max_ms
unfolding refusal_backoff_ms
refusal_backoff_ms_bound count = omega arith

abbrev Near : ℕ → WakeRow → Type 0
Near limit row = row.next_at ≤ limit

Past-weaken : (a b : ℕ) (at : Option ℕ) → a ≤ b → Past a at → Past b at
Past-weaken a b none le h = tt
Past-weaken a b (some at) le h = omega arith

Clamped-weaken : (a b : ℕ) (w : Wakes) → a ≤ b → Clamped a w → Clamped b w
Clamped-weaken a b w le (o, r, d, rows) = (
  Past-weaken _ _ (deadline_of w.doc.outstanding) (omega arith) o,
  Past-weaken _ _ w.doc.refusals.retry_at (omega arith) r,
  Past-weaken _ _ w.doc.debounce_at (omega arith) d,
  All-weaken (Near (a + max_future_ms)) (Near (b + max_future_ms)) w.rows (λ row h. omega arith)
      rows,
)

insert_row-Near :
    (limit : ℕ) (row : WakeRow) (rows : List WakeRow)
    → Near limit row
    → All (Near limit) rows
    → All (Near limit) (insert_row row rows)
unfolding insert_row
insert_row-Near limit row [] h all = (h, tt)
insert_row-Near limit row (r ∷ rows) h (k, all) =
    ground (arith, insert_row-Near limit row rows h all)

insert_entries-Near :
    (bound : RepresentativeBinding) (floor : Point) (now limit : ℕ) (entries : List LogEntry)
    (rows : List WakeRow)
    → now ≤ limit
    → All (Near limit) rows
    → All (Near limit) (insert_entries bound floor now entries rows).1
unfolding insert_entries insert_or_ignore
insert_entries-Near bound floor now limit [] rows le all = all
insert_entries-Near bound floor now limit (entry ∷ entries) rows le all = ground (
  arith,
  insert_row-Near limit (new_wake_row now entry) rows le all,
  insert_entries-Near bound floor now limit entries rows le all,
  insert_entries-Near bound floor now limit entries (insert_row (new_wake_row now entry) rows) le,
)

Past-clamp : (limit : ℕ) (at : Option ℕ) → Past limit (clamp_option limit at)
Past-clamp limit none = tt
Past-clamp limit (some at) = ground arith

Past-unexpired :
    (now limit : ℕ) (o : Option Outstanding)
    → Past limit (deadline_of (unexpired now (clamp_outstanding limit o)))
Past-unexpired now limit none = tt
Past-unexpired now limit (some o) = ground arith

clamp_row-Near : (limit : ℕ) (rows : List WakeRow) → All (Near limit) (map (clamp_row limit) rows)
clamp_row-Near limit [] = tt
clamp_row-Near limit (row ∷ rows) = (ground arith, clamp_row-Near limit rows)

expired-Clamped : (now : ℕ) (w : Wakes) → Clamped now (expired now w)
unfolding clamp
expired-Clamped now w = (
  Past-unexpired now (now + max_future_ms) w.doc.outstanding,
  Past-clamp (now + max_future_ms) w.doc.refusals.retry_at,
  Past-clamp (now + max_future_ms) w.doc.debounce_at,
  clamp_row-Near (now + max_future_ms) w.rows,
)

Past-passed_dropped :
    (limit now : ℕ) (at : Option ℕ) → Past limit at → Past limit (passed_dropped now at)
Past-passed_dropped limit now none h = tt
Past-passed_dropped limit now (some at) h = ground arith

attempt_due-Near :
    (now : ℕ) (row : WakeRow)
    → Near (now + max_future_ms) row
    → Near (now + max_future_ms) (attempt_due now row)
unfolding attempted
attempt_due-Near now row h = ground (arith, rewake_backoff_ms_bound (row.attempts + 1))

emit_due-Clamped :
    (now : ℕ) (batch : Text) (w : Wakes) (due : List WakeRow)
    → Clamped now w
    → Clamped now (emit_due now batch w due).1
unfolding emitted
emit_due-Clamped now batch w [] c = c
emit_due-Clamped now batch w (row ∷ due) (o, r, d, rows) = (
  omega arith,
  Past-passed_dropped (now + max_future_ms) now w.doc.refusals.retry_at r,
  tt,
  All-map (Near (now + max_future_ms)) (Near (now + max_future_ms)) (attempt_due now) w.rows
      (attempt_due-Near now) rows,
)

-- A scheduler step leaves no instant more than 24 h ahead, whatever the state was before it: what
-- was further ahead is clamped, and each backoff that it adds is at most 24 h.
pub tick-Clamped : (now : ℕ) (batch : Text) (w : Wakes) → Clamped now (tick now batch w).1
unfolding tick clamp is_blocked emitted
tick-Clamped now batch w =
    emit_due-Clamped now batch (expired now w) (due_rows now (expired now w))
      (expired-Clamped now w)

rolled_back-Near :
    (now retry : ℕ) (replies : List Text) (row : WakeRow)
    → retry ≤ now + max_future_ms
    → Near (now + max_future_ms) row
    → Near (now + max_future_ms) (rolled_back retry replies row)
rolled_back-Near now retry replies row le h = ground arith

refuse-Clamped :
    (now : ℕ) (o : Outstanding) (w : Wakes) → Clamped now w → Clamped now (refuse now o w)
unfolding refuse
refuse-Clamped now o w (p, r, d, rows) =
    let retry = refusal_backoff_ms_bound (w.doc.refusals.count + 1) in
    (
      tt,
      omega (arith, retry),
      d,
      All-map (Near (now + max_future_ms)) (Near (now + max_future_ms))
          (rolled_back (now + refusal_backoff_ms (w.doc.refusals.count + 1)) o.replies) w.rows
          (λ row. rolled_back-Near now _ o.replies row (omega (arith, retry))) rows,
    )

ack_outstanding-Clamped :
    (now : ℕ) (a : Ack) (o : Option Outstanding) (w : Wakes)
    → Clamped now w
    → Clamped now (ack_outstanding now a o w).1
unfolding accept refuse
ack_outstanding-Clamped now a none w c = c
ack_outstanding-Clamped now a (some o) w (p, r, d, rows) =
    ground (arith, refuse-Clamped now o w (p, r, d, rows))

-- The instants of a document alone.
abbrev Dated : ℕ → WakeDocument → Type 0
Dated limit doc =
    Past limit (deadline_of doc.outstanding)
    × Past limit doc.refusals.retry_at
    × Past limit doc.debounce_at

after_page-Dated :
    (now inserted : ℕ) (more : Bool) (rows : List WakeRow) (doc : WakeDocument)
    → Dated (now + max_future_ms) doc
    → Dated (now + max_future_ms) (after_page now inserted more rows doc)
unfolding after_page
after_page-Dated now inserted more rows doc (o, r, d) =
    elim (Bool-cases (is_covered more doc.cohort)) [
      | inl q ↦ rw q (o, r, tt)
      | inr q ↦
          elim (Bool-cases (
            not (nat_eq inserted 0)
            && (not (cohort_open doc.cohort) && not (is_some doc.debounce_at)))) [
              | inl p ↦ rw (q, p) (o, r, omega arith)
              | inr p ↦ rw (q, p) (o, r, d)
            ]
    ]

merge_page-Clamped :
    (bound : RepresentativeBinding) (floor : Point) (now : ℕ) (page : Page) (w : Wakes)
    → Clamped now w
    → Clamped now (merge_page bound floor now page w).1
unfolding merge_page prune_rows
merge_page-Clamped bound floor now page w (o, r, d, rows) =
    let added = insert_entries bound floor now page.entries w.rows in
    let dated =
      after_page-Dated now added.0 page.has_more (prune_rows floor added.1)
        (record w.doc {
          frontier = later w.doc.frontier (tail_point page.entries);
          cohort = scan_cohort (length page.entries) w.doc.cohort;
        })
        (o, r, d) in
    (
      dated.0,
      dated.1,
      dated.2,
      All-filter (Near (now + max_future_ms)) (λ row. not (is_passed (some floor) (row_point row)))
          added.1
          (insert_entries-Near bound floor now (now + max_future_ms) page.entries w.rows
            (omega arith) rows),
    )

capture-Clamped : (now count : ℕ) (w : Wakes) → Clamped now w → Clamped now (capture count w)
capture-Clamped now count w c = elim (Bool-cases (cohort_open w.doc.cohort)) [
  | inl q ↦ rw (q, capture) c
  | inr q ↦ rw (q, capture) c
]

step-Clamped :
    (now : ℕ) (event : Event) (w : Wakes) → Clamped now w → Clamped now (step now event w).1
unfolding step ack prune_rows
step-Clamped now (ticks batch) w c = tick-Clamped now batch w
step-Clamped now (acks a) w c = ack_outstanding-Clamped now a w.doc.outstanding w c
step-Clamped now (merges bound floor page) w c = merge_page-Clamped bound floor now page w c
step-Clamped now (delivers point) w (o, r, d, rows) = (
  o,
  r,
  d,
  All-filter (Near (now + max_future_ms)) (λ row. not (is_passed (some point) (row_point row)))
      w.rows rows,
)
step-Clamped now (captures count) w c = capture-Clamped now count w c

-- The times of a run never go back.
abbrev pub Timed : ℕ → List (ℕ × Event) → Type 0
Timed from [] = Unit
Timed from ((at, event) ∷ events) = (from ≤ at) × Timed at events

abbrev pub last_time : ℕ → List (ℕ × Event) → ℕ
last_time from [] = from
last_time from ((at, event) ∷ events) = last_time at events

-- While the clock does not go back, every run of events keeps all instants within 24 h of the
-- present, if they are so at the start.
pub run-Clamped :
    (from : ℕ) (events : List (ℕ × Event)) (w : Wakes)
    → Timed from events
    → Clamped from w
    → Clamped (last_time from events) (run events w).1
unfolding run
run-Clamped from [] w timed c = c
run-Clamped from ((at, event) ∷ events) w (le, timed) c =
    run-Clamped at events (step at event w).1 timed
      (step-Clamped at event w (Clamped-weaken from at w le c))
