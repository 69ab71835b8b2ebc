-- ===== src/Representative/Push/Acks.antt =====
-- What an ack does to the wake that it answers (`ack` of src/representative-push.ts).
use borg_mcp_client.Prelude.{
  ℕ, ◌+◌, ◌<◌, ◌≡◌, leb, ◌≢◌, refl, sym, ap, ◌∙◌, true, false, Option, none, some, List, [], ◌∷◌,
  arith, is_some, map, Bool-cases, inl, inr,
}
use mathlib.Core.Path.{subst, ap₂}
use borg_mcp_client.Prelude.Lists.{All, filter_kept, filter_dropped, filter, any}
use borg_mcp_client.Text.{Text, member, eq_iff, eq_refl}
use borg_mcp_client.Representative.Push.{
  Outstanding, WakeRow, Wakes, tick, clamp, is_blocked, emitted, emit_due, due_rows, expired,
  wake_ack_deadline_ms, max_future_ms, attempted, attempt_due, clamp_row, is_due, entry_ids,
}
use borg_mcp_client.Representative.Push.Ack.{
  Ack, ack, accept, refuse, ack_outstanding, settle_ack, refused, ignored, rolled_back,
}
use borg_mcp_client.Representative.Push.Tick.{tick_blocked}
use borg_mcp_client.Representative.Push.Discovery.{has_id}

-- The ids of the rows differ, as the primary key has it.
abbrev pub Distinct : List WakeRow → Type 0
Distinct [] = Unit
Distinct (row ∷ rows) = (any (has_id row.entry_id) rows ≡ false) × Distinct rows

-- A reply with the number of wakes that are counted for it.
abbrev pub tally : WakeRow → Text × ℕ
tally row = (row.entry_id, row.attempts)

member-due :
    (now : ℕ) (id : Text) (rows : List WakeRow)
    → any (has_id id) rows ≡ false
    → member id (entry_ids (filter (is_due now) rows)) ≡ false
unfolding member
member-due now id [] h = refl
member-due now id (row ∷ rows) h = ground (arith, member-due now id rows)

-- For a row of the list, being in the batch is being due.
abbrev InBatch : ℕ → List Text → WakeRow → Type 0
InBatch now batch row = member row.entry_id batch ≡ is_due now row

InBatch-cons :
    (now : ℕ) (row : WakeRow) (batch : List Text) (rows : List WakeRow)
    → any (has_id row.entry_id) rows ≡ false
    → All (InBatch now batch) rows
    → All (InBatch now (row.entry_id ∷ batch)) rows
unfolding member
InBatch-cons now row batch [] h all = tt
InBatch-cons now row batch (r ∷ rows) h (k, all) = (
  ground (arith, eq_iff r.entry_id row.entry_id, eq_iff row.entry_id r.entry_id),
  InBatch-cons now row batch rows (ground arith) all,
)

InBatch-due :
    (now : ℕ) (rows : List WakeRow)
    → Distinct rows
    → All (InBatch now (entry_ids (filter (is_due now) rows))) rows
unfolding member
InBatch-due now [] h = tt
InBatch-due now (row ∷ rows) (h, hs) = elim (Bool-cases (is_due now row)) [
  | inl q ↦
      subst (λ due. All (InBatch now (entry_ids due)) (row ∷ rows))
        (sym (filter_kept (is_due now) row rows q))
        (
          rw (eq_refl row.entry_id) (sym q),
          InBatch-cons now row (entry_ids (filter (is_due now) rows)) rows h
              (InBatch-due now rows hs),
        )
  | inr q ↦
      subst (λ due. All (InBatch now (entry_ids due)) (row ∷ rows))
        (sym (filter_dropped (is_due now) row rows q))
        (member-due now row.entry_id rows h ∙ sym q, InBatch-due now rows hs)
]

rolled_back-attempt_due :
    (now retry : ℕ) (batch : List Text) (row : WakeRow)
    → InBatch now batch row
    → tally (rolled_back retry batch (attempt_due now row)) ≡ tally row
unfolding attempted
rolled_back-attempt_due now retry batch row h = elim (Bool-cases (is_due now row)) [
  | inl q ↦
      let h' : member row.entry_id batch ≡ true = h ∙ q in
      rw (q, h') (ap (λ n. (row.entry_id, n)) (omega arith))
  | inr q ↦ let h' : member row.entry_id batch ≡ false = h ∙ q in rw (q, h') refl
]

map-tally :
    (now retry : ℕ) (batch : List Text) (rows : List WakeRow)
    → All (InBatch now batch) rows
    → map tally (map (rolled_back retry batch) (map (attempt_due now) rows)) ≡ map tally rows
map-tally now retry batch [] all = refl
map-tally now retry batch (row ∷ rows) (h, all) =
    ap₂ ◌∷◌ (rolled_back-attempt_due now retry batch row h) (map-tally now retry batch rows all)

clamp_row-tally :
    (limit : ℕ) (rows : List WakeRow) → map tally (map (clamp_row limit) rows) ≡ map tally rows
clamp_row-tally limit [] = refl
clamp_row-tally limit (row ∷ rows) = ap₂ ◌∷◌ (ground arith) (clamp_row-tally limit rows)

any-clamp_row :
    (limit : ℕ) (id : Text) (rows : List WakeRow)
    → any (has_id id) (map (clamp_row limit) rows) ≡ any (has_id id) rows
any-clamp_row limit id [] = refl
any-clamp_row limit id (row ∷ rows) = ground (arith, any-clamp_row limit id rows)

clamp_row-entry_id : (limit : ℕ) (row : WakeRow) → (clamp_row limit row).entry_id ≡ row.entry_id
clamp_row-entry_id limit row = ground arith

pub clamp_row-Distinct :
    (limit : ℕ) (rows : List WakeRow) → Distinct rows → Distinct (map (clamp_row limit) rows)
clamp_row-Distinct limit [] h = tt
clamp_row-Distinct limit (row ∷ rows) (h, hs) = (
  rw (clamp_row-entry_id limit row) (any-clamp_row limit row.entry_id rows ∙ h),
  clamp_row-Distinct limit rows hs,
)

abbrev pub refusal : Text → Ack
refusal id = record { wake_id = id; is_accepted = false }

emit_due-refused :
    (now at : ℕ) (id : Text) (w : Wakes) (due : List WakeRow)
    → is_some (emit_due now id w due).0 ≡ true
    → at < now + wake_ack_deadline_ms
    → All (InBatch now (entry_ids due)) w.rows
    → ((ack at (refusal id) (emit_due now id w due).1).0 ≡ refused)
      × (map tally (ack at (refusal id) (emit_due now id w due).1).1.rows ≡ map tally w.rows)
unfolding emitted ack accept refuse
emit_due-refused now at id w [] h lt all = cc
emit_due-refused now at id w (row ∷ due) h lt all =
    let late : leb (now + wake_ack_deadline_ms) at ≡ false = ground arith in
    rw (late, settle_ack, eq_refl id) (refl, map-tally now _ (entry_ids (row ∷ due)) w.rows all)

-- A refused wake is not counted: when the host refuses a wake before its deadline, the ack is taken
-- as a refusal, and each reply has the number of attempts that it had before the wake.
pub ack-tick :
    (now at : ℕ) (id : Text) (w : Wakes)
    → is_some (tick now id w).0 ≡ true
    → at < now + wake_ack_deadline_ms
    → Distinct w.rows
    → ((ack at (refusal id) (tick now id w).1).0 ≡ refused)
      × (map tally (ack at (refusal id) (tick now id w).1).1.rows ≡ map tally w.rows)
unfolding tick clamp is_blocked emitted
ack-tick now at id w h lt distinct = elim (Bool-cases (is_blocked now (expired now w).doc)) [
  | inl q ↦ let h' : false ≡ true = rw (tick_blocked now id w q) at h in cc
  | inr q ↦
      let (outcome, tallies) =
        emit_due-refused now at id (expired now w) (due_rows now (expired now w)) h lt (
          rw q (
            InBatch-due now (expired now w).rows
              (clamp_row-Distinct (now + max_future_ms) w.rows distinct))) in
      (outcome, tallies ∙ clamp_row-tally (now + max_future_ms) w.rows)
]

settled :
    (now : ℕ) (a : Ack) (o : Option Outstanding) (w : Wakes)
    → (ack_outstanding now a o w).0 ≢ ignored
    → (ack_outstanding now a o w).1.doc.outstanding ≡ none
unfolding accept refuse
settled now a none w h = absurd (h refl)
settled now a (some o) w h = ground arith

-- An ack counts once: after an ack that was accepted or refused, the state takes no further ack,
-- neither the same line again nor one for another id, until the next wake.
pub ack-ack :
    (now at : ℕ) (a b : Ack) (w : Wakes)
    → (ack now a w).0 ≢ ignored
    → ack at b (ack now a w).1 ≡ (ignored, (ack now a w).1)
unfolding ack accept refuse
ack-ack now at a b w h = rw (settled now a w.doc.outstanding w h) refl
