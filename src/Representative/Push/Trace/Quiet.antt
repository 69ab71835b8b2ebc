-- ===== src/Representative/Push/Trace/Quiet.antt =====
-- At most one batch is outstanding (src/representative-push.ts): after a wake no other one follows
-- before its ack or its deadline.
use borg_mcp_client.Prelude.{
  ℕ, ◌+◌, ◌≤◌, ◌<◌, ◌≡◌, refl, sym, Bool, true, false, Option, none, some, List, [], ◌∷◌, arith,
  is_some,
}
use borg_mcp_client.Prelude.Lists.{All}
use borg_mcp_client.Text.{Text, ◌==◌}
use borg_mcp_client.Representative.Push.{
  Outstanding, WakeDocument, WakeRow, Wakes, WakeEmission, wake_ack_deadline_ms, tick, clamp,
  is_blocked, emitted, emit_due, due_rows, expired, unexpired, max_future_ms, clamp_outstanding,
}
use borg_mcp_client.Representative.Push.Ack.{Ack, ack, accept, refuse, ack_outstanding}
use borg_mcp_client.Representative.Push.Tick.{tick_blocked}
use borg_mcp_client.Representative.Push.Discovery.{merge_page, after_page}
use borg_mcp_client.Representative.Push.Trace.{
  Event, ticks, acks, merges, delivers, captures, capture, step, run,
}

-- The batch that is outstanding, and until when.
abbrev pub Holds : Text → ℕ → Option Outstanding → Type 0
Holds batch deadline none = ⊥
Holds batch deadline (some o) = (o.batch ≡ batch) × (o.deadline ≡ deadline)

-- An event that is not an ack of the batch.
abbrev pub IsOther : Text → Event → Type 0
IsOther batch (acks a) = (batch == a.wake_id) ≡ false
IsOther batch _ = Unit

-- At a time from `now` to before the deadline of a batch that was emitted at `now`.
abbrev pub Within : ℕ → Text → ℕ × Event → Type 0
Within now batch (at, event) = (now ≤ at) × (at < now + wake_ack_deadline_ms) × IsOther batch event

unexpired_kept :
    (at deadline : ℕ) (batch : Text) (o : Option Outstanding)
    → at < deadline
    → deadline ≤ at + max_future_ms
    → Holds batch deadline o
    → unexpired at (clamp_outstanding (at + max_future_ms) o) ≡ o
unexpired_kept at deadline batch none lt le h = absurd h
unexpired_kept at deadline batch (some o) lt le (b, d) = ground arith

Holds-is_some :
    (deadline : ℕ) (batch : Text) (o : Option Outstanding)
    → Holds batch deadline o
    → is_some o ≡ true
Holds-is_some deadline batch none h = absurd h
Holds-is_some deadline batch (some o) h = refl

-- The outstanding batch stays, and nothing is emitted.
abbrev pub Keeps : Text → ℕ → Option WakeEmission × Wakes → Type 0
Keeps batch deadline (wake, w) = Holds batch deadline w.doc.outstanding × (wake ≡ none)

tick-Keeps :
    (at deadline : ℕ) (batch fresh : Text) (w : Wakes)
    → at < deadline
    → deadline ≤ at + max_future_ms
    → Holds batch deadline w.doc.outstanding
    → Keeps batch deadline (tick at fresh w)
unfolding clamp is_blocked
tick-Keeps at deadline batch fresh w lt le h =
    let kept = unexpired_kept at deadline batch w.doc.outstanding lt le h in
    let held : is_some (expired at w).doc.outstanding ≡ true =
      rw kept (Holds-is_some deadline batch w.doc.outstanding h) in
    rw (tick_blocked at fresh w (rw held refl)) (rw kept (h, refl))

ack_outstanding-Holds :
    (at deadline : ℕ) (batch : Text) (a : Ack) (o : Option Outstanding) (w : Wakes)
    → at < deadline
    → (batch == a.wake_id) ≡ false
    → Holds batch deadline o
    → (ack_outstanding at a o w).1 ≡ w
unfolding accept refuse
ack_outstanding-Holds at deadline batch a none w lt q h = absurd h
ack_outstanding-Holds at deadline batch a (some o) w lt q (b, d) =
    let q' : (o.batch == a.wake_id) ≡ false = rw (sym b) at q in ground arith

after_page-outstanding :
    (now inserted : ℕ) (more : Bool) (rows : List WakeRow) (doc : WakeDocument)
    → (after_page now inserted more rows doc).outstanding ≡ doc.outstanding
unfolding after_page
after_page-outstanding now inserted more rows doc = ground arith

capture-outstanding :
    (count : ℕ) (w : Wakes) → (capture count w).doc.outstanding ≡ w.doc.outstanding
capture-outstanding count w = ground arith

step-Keeps :
    (at deadline : ℕ) (batch : Text) (event : Event) (w : Wakes)
    → at < deadline
    → deadline ≤ at + max_future_ms
    → IsOther batch event
    → Holds batch deadline w.doc.outstanding
    → Keeps batch deadline (step at event w)
unfolding step merge_page ack
step-Keeps at deadline batch (ticks fresh) w lt le q h =
    tick-Keeps at deadline batch fresh w lt le h
step-Keeps at deadline batch (acks a) w lt le q h =
    (rw (ack_outstanding-Holds at deadline batch a w.doc.outstanding w lt q h) h, refl)
step-Keeps at deadline batch (merges bound floor page) w lt le q h =
    (rw (after_page-outstanding at _ _ _ _) h, refl)
step-Keeps at deadline batch (delivers point) w lt le q h = (h, refl)
step-Keeps at deadline batch (captures count) w lt le q h =
    (rw (capture-outstanding count w) h, refl)

run-Keeps :
    (now : ℕ) (batch : Text) (events : List (ℕ × Event)) (w : Wakes)
    → All (Within now batch) events
    → Holds batch (now + wake_ack_deadline_ms) w.doc.outstanding
    → (run events w).0 ≡ []
unfolding run
run-Keeps now batch [] w all h = refl
run-Keeps now batch ((at, event) ∷ events) w ((le, lt, other), all) h =
    let (held, quiet) =
      step-Keeps at (now + wake_ack_deadline_ms) batch event w lt (omega arith) other h in
    rw quiet (run-Keeps now batch events (step at event w).1 all held)

emit-Holds :
    (now : ℕ) (batch : Text) (w : Wakes) (due : List WakeRow)
    → is_some (emit_due now batch w due).0 ≡ true
    → Holds batch (now + wake_ack_deadline_ms) (emit_due now batch w due).1.doc.outstanding
unfolding emitted
emit-Holds now batch w [] h = cc
emit-Holds now batch w (row ∷ due) h = (refl, refl)

-- After a wake, the run of any events within the next 60 s wakes the host no second time, unless
-- one of them is an ack of that wake: pages merged, replies delivered, cohorts captured, other
-- acks and further scheduler steps, in any order and however often.
pub run-after_tick :
    (now : ℕ) (batch : Text) (events : List (ℕ × Event)) (w : Wakes)
    → is_some (tick now batch w).0 ≡ true
    → All (Within now batch) events
    → (run events (tick now batch w).1).0 ≡ []
unfolding tick clamp is_blocked emitted
run-after_tick now batch events w h all =
    run-Keeps now batch events (tick now batch w).1 all
      (emit-Holds now batch (expired now w) (due_rows now (expired now w)) h)
