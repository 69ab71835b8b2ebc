-- ===== src/Representative/Push/Trace/Keys.antt =====
-- The rows of the wake state have different ids (src/representative-push.ts).
use borg_mcp_client.Prelude.{
  ℕ, ◌+◌, ◌≡◌, refl, ◌∙◌, not, Option, none, some, List, [], ◌∷◌, arith, map, Bool-cases, inl, inr,
}
use borg_mcp_client.Prelude.Lists.{any}
use borg_mcp_client.Text.{Text}
use borg_mcp_client.Representative.Delivery.{is_passed}
use borg_mcp_client.Representative.Push.{
  Outstanding, WakeRow, Wakes, tick, clamp, is_blocked, emitted, emit_due, due_rows, expired,
  attempt_due, attempted, max_future_ms, cohort_open,
}
use borg_mcp_client.Representative.Push.Ack.{Ack, ack, accept, refuse, ack_outstanding, rolled_back}
use borg_mcp_client.Representative.Push.Acks.{Distinct, clamp_row-Distinct}
use borg_mcp_client.Representative.Push.Merge.{insert_entries-Distinct, filter-Distinct}
use borg_mcp_client.Representative.Push.Discovery.{
  merge_page, prune_rows, insert_entries, has_id, row_point,
}
use borg_mcp_client.Representative.Push.Trace.{
  Event, ticks, acks, merges, delivers, captures, step, run, capture,
}

-- A change of the rows that keeps the ids keeps them different.
module _ (f : WakeRow → WakeRow) (same : (row : WakeRow) → (f row).entry_id ≡ row.entry_id) where
  any-map : (id : Text) (rows : List WakeRow) → any (has_id id) (map f rows) ≡ any (has_id id) rows
  any-map id [] = refl
  any-map id (row ∷ rows) = rw (same row, any-map id rows) refl

  map-Distinct : (rows : List WakeRow) → Distinct rows → Distinct (map f rows)
  map-Distinct [] h = tt
  map-Distinct (row ∷ rows) (h, hs) =
      (rw (same row) (any-map row.entry_id rows ∙ h), map-Distinct rows hs)

attempt_due-entry_id : (now : ℕ) (row : WakeRow) → (attempt_due now row).entry_id ≡ row.entry_id
unfolding attempted
attempt_due-entry_id now row = ground arith

rolled_back-entry_id :
    (retry : ℕ) (replies : List Text) (row : WakeRow)
    → (rolled_back retry replies row).entry_id ≡ row.entry_id
rolled_back-entry_id retry replies row = ground arith

emit_due-Distinct :
    (now : ℕ) (batch : Text) (w : Wakes) (due : List WakeRow)
    → Distinct w.rows
    → Distinct (emit_due now batch w due).1.rows
unfolding emitted
emit_due-Distinct now batch w [] h = h
emit_due-Distinct now batch w (row ∷ due) h =
    map-Distinct (attempt_due now) (attempt_due-entry_id now) w.rows h

refuse-Distinct :
    (now : ℕ) (o : Outstanding) (w : Wakes) → Distinct w.rows → Distinct (refuse now o w).rows
unfolding refuse
refuse-Distinct now o w h =
    map-Distinct (rolled_back _ o.replies) (rolled_back-entry_id _ o.replies) w.rows h

ack_outstanding-Distinct :
    (now : ℕ) (a : Ack) (o : Option Outstanding) (w : Wakes)
    → Distinct w.rows
    → Distinct (ack_outstanding now a o w).1.rows
unfolding accept refuse
ack_outstanding-Distinct now a none w h = h
ack_outstanding-Distinct now a (some o) w h = ground (arith, refuse-Distinct now o w h)

step-Distinct :
    (now : ℕ) (event : Event) (w : Wakes) → Distinct w.rows → Distinct (step now event w).1.rows
unfolding step ack prune_rows tick clamp is_blocked emitted merge_page
step-Distinct now (ticks batch) w h =
    emit_due-Distinct now batch (expired now w) (due_rows now (expired now w))
      (clamp_row-Distinct (now + max_future_ms) w.rows h)
step-Distinct now (acks a) w h = ack_outstanding-Distinct now a w.doc.outstanding w h
step-Distinct now (merges bound floor page) w h =
    filter-Distinct (λ row. not (is_passed (some floor) (row_point row)))
      (insert_entries bound floor now page.entries w.rows).1
      (insert_entries-Distinct bound floor now page.entries w.rows h)
step-Distinct now (delivers point) w h =
    filter-Distinct (λ row. not (is_passed (some point) (row_point row))) w.rows h
step-Distinct now (captures count) w h = elim (Bool-cases (cohort_open w.doc.cohort)) [
  | inl q ↦ rw (q, capture) h
  | inr q ↦ rw (q, capture) h
]

-- No run of events, whatever they are, brings a second row for one reply.
pub run-Distinct :
    (events : List (ℕ × Event)) (w : Wakes) → Distinct w.rows → Distinct (run events w).1.rows
unfolding run
run-Distinct [] w h = h
run-Distinct ((now, event) ∷ events) w h =
    run-Distinct events (step now event w).1 (step-Distinct now event w h)
