-- ===== src/Representative/Binding/Tests.antt =====
-- The checks of src/representative-core.ts at a small roster, and the theorems there.
use borg_mcp_client.Prelude.{◌≡◌, ◌≢◌, refl, true, false, [], ◌∷◌}
use borg_mcp_client.Prelude.Lists.{filter}
use borg_mcp_client.Prelude.Result.{ok, err}
use borg_mcp_client.Text.{Text, ◌==◌}
use borg_mcp_client.Representative.Binding.{
  coordinator_ambiguous, coordinator_not_human_seat, worker, RosterRole, RosterDrone, Roster,
  Whoami, RepresentativeBinding, resolve_coordinator, verify_live_binding, binding_mismatch,
  verified_in, assert_bound_seat, verified_self, verified_coordinator,
}
use borg_mcp_client.Representative.Binding.Verified.{
  HoldsHumanSeat, resolve_coordinator_sound, IsLive, verify_live_binding-IsLive,
}

runs : Unit {0}
unfolding resolve_coordinator verify_live_binding verified_in assert_bound_seat verified_self
    verified_coordinator ◌==◌
runs = tt

abbrev human : RosterRole
human = record { id = 1 ∷ []; name = []; is_human_seat = true; role_class = worker }

abbrev plain : RosterRole
plain = record { id = 2 ∷ []; name = []; is_human_seat = false; role_class = worker }

abbrev drone : Text → Text → Text → RosterDrone
drone id label role_id = record {
  id = id;
  label = label;
  role_id = role_id;
  is_queen_class = false;
}

abbrev coordinator : RosterDrone
coordinator = drone (5 ∷ []) (50 ∷ []) (1 ∷ [])

abbrev self : RosterDrone
self = drone (6 ∷ []) (60 ∷ []) (2 ∷ [])

abbrev roster : Roster
roster = record { drones = coordinator ∷ self ∷ []; roles = human ∷ plain ∷ [] }

abbrev bound : RepresentativeBinding
bound = record {
  cube_id = 9 ∷ [];
  representative_drone_id = 6 ∷ [];
  representative_label = 60 ∷ [];
  coordinator_drone_id = 5 ∷ [];
  coordinator_label = 50 ∷ [];
}

abbrev me : Whoami
me = record { cube_id = 9 ∷ []; drone_id = 6 ∷ [] }

not_human_run : resolve_coordinator roster (60 ∷ []) (7 ∷ []) ≡ err coordinator_not_human_seat
unfolding runs
not_human_run = refl

ambiguous_run :
    resolve_coordinator
      (record roster { drones = coordinator ∷ coordinator ∷ [] })
      (50 ∷ [])
      (6 ∷ [])
    ≡ err coordinator_ambiguous
unfolding runs
ambiguous_run = refl

mismatch_run :
    verify_live_binding bound (ok (record me { drone_id = 7 ∷ [] })) (ok roster)
    ≡ err binding_mismatch
unfolding runs
mismatch_run = refl

resolve_coordinator_sound_example :
    (filter (λ d. d.label == (50 ∷ [])) roster.drones ≡ coordinator ∷ [])
    × (coordinator.id ≢ 6 ∷ [])
    × HoldsHumanSeat roster coordinator human
unfolding runs
resolve_coordinator_sound_example =
    resolve_coordinator_sound roster (50 ∷ []) (6 ∷ []) coordinator human refl

verify_live_binding-IsLive_example : IsLive bound me roster coordinator self
unfolding runs
verify_live_binding-IsLive_example =
    verify_live_binding-IsLive bound me roster coordinator self refl
