-- ===== src/Representative/Push/Trace/Startup.antt =====
-- One cohort is announced at most once (src/representative-push.ts).
use borg_mcp_client.Prelude.{
  ℕ, ◌+◌, ◌≤◌, ◌≡◌, Bool, true, false, Option, none, some, List, [], ◌∷◌, arith, if◌then◌else◌,
  Bool-cases, inl, inr,
}
use borg_mcp_client.Prelude.Lists.{All, length, filter}
use borg_mcp_client.Text.{Text}
use borg_mcp_client.Representative.Push.{
  Outstanding, startup, WakeDocument, WakeRow, Wakes, WakeEmission, tick, clamp, is_blocked,
  emitted, emit_due, due_rows, expired, cohort_open, reason_of,
}
use borg_mcp_client.Representative.Push.Ack.{Ack, ack, accept, refuse, ack_outstanding}
use borg_mcp_client.Representative.Point.{later}
use borg_mcp_client.Representative.Push.Tick.{tick_blocked}
use borg_mcp_client.Representative.Push.Discovery.{
  merge_page, after_page, prune_rows, scan_cohort, insert_entries, tail_point,
}
use borg_mcp_client.Representative.Push.Trace.{
  Event, ticks, acks, merges, delivers, captures, step, run, with_wake,
}

abbrev pub is_startup : WakeEmission → Bool
is_startup wake = elim wake.reason [ startup ↦ true | _ ↦ false ]

abbrev pub IsNoCapture : ℕ × Event → Type 0
IsNoCapture (at, captures count) = ⊥
IsNoCapture _ = Unit

-- Whether a startup wake may still come.
abbrev pub credit : WakeDocument → ℕ
credit doc = if cohort_open doc.cohort then 1 else if doc.startup_pending then 1 else 0

abbrev startups : Option WakeEmission → ℕ
startups none = 0
startups (some wake) = if is_startup wake then 1 else 0

abbrev Spends : WakeDocument → Option WakeEmission × Wakes → Type 0
Spends doc (wake, w) = startups wake + credit w.doc ≤ credit doc

emit_due-Spends :
    (now : ℕ) (batch : Text) (w : Wakes) (due : List WakeRow)
    → cohort_open w.doc.cohort ≡ false
    → Spends w.doc (emit_due now batch w due)
unfolding emitted reason_of
emit_due-Spends now batch w [] c = omega arith
emit_due-Spends now batch w (row ∷ due) c = ground arith

tick-Spends : (now : ℕ) (batch : Text) (w : Wakes) → Spends w.doc (tick now batch w)
unfolding tick clamp is_blocked emitted
tick-Spends now batch w = elim (Bool-cases (cohort_open w.doc.cohort)) [
  | inl q ↦ rw (tick_blocked now batch w (ground (arith, q))) (omega arith)
  | inr q ↦ emit_due-Spends now batch (expired now w) (due_rows now (expired now w)) q
]

after_page-credit :
    (now inserted n : ℕ) (more : Bool) (rows : List WakeRow) (doc : WakeDocument)
    → credit (after_page now inserted more rows (record doc { cohort = scan_cohort n doc.cohort }))
      ≤ credit doc
unfolding after_page
after_page-credit now inserted n more rows doc = ground arith

ack_outstanding-credit :
    (now : ℕ) (a : Ack) (o : Option Outstanding) (w : Wakes)
    → credit (ack_outstanding now a o w).1.doc ≤ credit w.doc
unfolding accept refuse
ack_outstanding-credit now a none w = omega arith
ack_outstanding-credit now a (some o) w = ground arith

step-Spends :
    (now : ℕ) (event : Event) (w : Wakes)
    → IsNoCapture (now, event)
    → Spends w.doc (step now event w)
unfolding step merge_page ack
step-Spends now (ticks batch) w h = tick-Spends now batch w
step-Spends now (acks a) w h = omega (arith, ack_outstanding-credit now a w.doc.outstanding w)
step-Spends now (merges bound floor page) w h = omega (
  arith,
  after_page-credit now (insert_entries bound floor now page.entries w.rows).0 (length page.entries)
      page.has_more (prune_rows floor (insert_entries bound floor now page.entries w.rows).1)
      (record w.doc { frontier = later w.doc.frontier (tail_point page.entries) }),
)
step-Spends now (delivers point) w h = omega arith
step-Spends now (captures count) w h = absurd h

with_wake-startups :
    (wake : Option WakeEmission) (wakes : List WakeEmission)
    → length (filter is_startup (with_wake wake wakes))
      ≡ startups wake + length (filter is_startup wakes)
with_wake-startups none wakes = omega arith
with_wake-startups (some wake) wakes = ground arith

-- Without a new capture a run of events, whatever they are, wakes the host at most once for the
-- startup of the engine, and never when the cohort is closed and its wake is not pending.
pub run-startup_bound :
    (events : List (ℕ × Event)) (w : Wakes)
    → All IsNoCapture events
    → length (filter is_startup (run events w).0) ≤ credit w.doc
unfolding run
run-startup_bound [] w h = omega arith
run-startup_bound ((now, event) ∷ events) w (h, all) =
    let rest = run-startup_bound events (step now event w).1 all in
    let spent = step-Spends now event w h in
    rw (with_wake-startups (step now event w).0 (run events (step now event w).1).0) (omega arith)
