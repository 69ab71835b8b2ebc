-- ===== src/Representative/Push/Trace.antt =====
-- Runs of the push engine's transitions (src/representative-push.ts), in the order in which they
-- commit, and how often a run wakes the host.
pub mod Quiet
pub mod Startup
pub mod Bounds
pub mod Keys
use borg_mcp_client.Prelude.{
  ℕ, zero, suc, ◌+◌, ◌≤◌, ◌<◌, ◌≡◌, Bool, true, false, Option, none, some, List, [], ◌∷◌,
}
use borg_mcp_client.Text.{Text, ◌==◌}
use borg_mcp_client.Representative.Binding.{RepresentativeBinding}
use borg_mcp_client.Representative.Point.{Point}
use borg_mcp_client.Representative.Read.{Page}
use borg_mcp_client.Representative.Push.{
  WakeReason, WakeDocument, Wakes, WakeEmission, cohort_open, tick,
}
use borg_mcp_client.Representative.Push.Ack.{Ack, ack}
use borg_mcp_client.Representative.Push.Discovery.{merge_page, prune_rows}
use borg_mcp_client.Representative.Push.Engine.{captured}

-- A transition: a scheduler step with its fresh id, an ack, a page merged above a floor, the
-- deletion of the rows that a delivery passed, the capture of a cohort by its size.
pub data Event : Type 0 where
  ticks : Text → Event
  acks : Ack → Event
  merges : RepresentativeBinding → Point → Page → Event
  delivers : Point → Event
  captures : ℕ → Event

-- An open cohort is kept.
abbrev pub capture : ℕ → Wakes → Wakes
capture count w = elim (cohort_open w.doc.cohort) [
  | true ↦ w
  | false ↦ record { doc = captured count w.doc; rows = w.rows }
]

unfoldable pub step : ℕ → Event → Wakes → Option WakeEmission × Wakes
unfolding tick ack merge_page prune_rows
step now (ticks batch) w = tick now batch w
step now (acks a) w = (none, (ack now a w).1)
step now (merges bound floor page) w = (none, (merge_page bound floor now page w).1)
step now (delivers point) w = (none, record { doc = w.doc; rows = prune_rows point w.rows })
step now (captures count) w = (none, capture count w)

abbrev pub with_wake : Option WakeEmission → List WakeEmission → List WakeEmission
with_wake none wakes = wakes
with_wake (some wake) wakes = wake ∷ wakes

-- The wakes that a run of timed events emits, and the state that it leaves.
unfoldable pub run : List (ℕ × Event) → Wakes → List WakeEmission × Wakes
unfolding step
run [] w = ([], w)
run ((now, event) ∷ events) w =
    let next = step now event w in let rest = run events next.1 in (with_wake next.0 rest.0, rest.1)
