-- ===== src/Representative/Binding.antt =====
-- Who may speak to whom (src/representative-core.ts): the guard on the representative's own role,
-- the choice of the one Coordinator, and the check of the live cube before every effect.
-- `whoami` and `roster` are what the backend answered, or the failure that it threw.
pub mod Verified
mod Tests
use borg_mcp_client.Prelude.{
  ℕ, Bool, true, false, not, ◌&&◌, ◌||◌, Option, none, some, List, [], ◌∷◌, if◌then◌else◌,
}
use borg_mcp_client.Prelude.Result.{Result, ok, err, ◌>>=◌}
use borg_mcp_client.Prelude.Lists.{filter, find}
use borg_mcp_client.Text.{Text, ◌==◌}

-- The codes of `RepresentativeErrorCode` that this part throws; `backend_error` is any failure of
-- the backend that it passes on.
pub data BindingError : Type 0 where
  binding_mismatch seat_unavailable coordinator_not_found coordinator_ambiguous : BindingError
  coordinator_not_human_seat coordinator_is_self coordinator_unavailable : BindingError
  representative_role_not_permitted backend_error : BindingError

pub data RoleClass : Type 0 where
  queen worker : RoleClass

pub record RosterRole : Type 0 where
  pub id : Text
  pub name : Text
  pub is_human_seat : Bool
  pub role_class : RoleClass

-- an absent `is_queen_class` is not true
pub record RosterDrone : Type 0 where
  pub id : Text
  pub label : Text
  pub role_id : Text
  pub is_queen_class : Bool

pub record Roster : Type 0 where
  pub drones : List RosterDrone
  pub roles : List RosterRole

pub record Whoami : Type 0 where
  pub cube_id : Text
  pub drone_id : Text

-- The fields of `RepresentativeBinding` (src/representative-store.ts) that the core reads.
pub record RepresentativeBinding : Type 0 where
  pub cube_id : Text
  pub representative_drone_id : Text
  pub representative_label : Text
  pub coordinator_drone_id : Text
  pub coordinator_label : Text

abbrev pub is_queen : RoleClass → Bool
is_queen queen = true
is_queen worker = false

unfoldable pub assert_representative_role :
    RosterRole → RosterDrone → Result BindingError (Unit {0})
assert_representative_role role drone =
    if role.is_human_seat || is_queen role.role_class || drone.is_queen_class
    then err representative_role_not_permitted
    else ok tt

abbrev pub find_drone : Text → List RosterDrone → Option RosterDrone
find_drone id drones = find (λ drone. drone.id == id) drones

abbrev pub find_role : Text → List RosterRole → Option RosterRole
find_role id roles = find (λ role. role.id == id) roles

unfoldable pub with_human_seat :
    RosterDrone → Option RosterRole → Result BindingError (RosterDrone × RosterRole)
with_human_seat drone none = err coordinator_not_human_seat
with_human_seat drone (some role) =
    if role.is_human_seat then ok (drone, role) else err coordinator_not_human_seat

unfoldable pub resolve_match :
    Roster → Text → List RosterDrone → Result BindingError (RosterDrone × RosterRole)
unfolding with_human_seat
resolve_match roster self_drone_id [] = err coordinator_not_found
resolve_match roster self_drone_id (drone ∷ other ∷ more) = err coordinator_ambiguous
resolve_match roster self_drone_id (drone ∷ []) =
    if drone.id == self_drone_id
    then err coordinator_is_self
    else with_human_seat drone (find_role drone.role_id roster.roles)

unfoldable pub resolve_coordinator :
    Roster → Text → Text → Result BindingError (RosterDrone × RosterRole)
unfolding resolve_match
resolve_coordinator roster label self_drone_id =
    resolve_match roster self_drone_id (filter (λ drone. drone.label == label) roster.drones)

-- `roles.find((role) => role.id === drone?.role_id)`; no role has an absent id
abbrev pub role_of : Option RosterDrone → List RosterRole → Option RosterRole
role_of none roles = none
role_of (some drone) roles = find_role drone.role_id roles

unfoldable pub verified_self :
    Option RosterDrone → Option RosterRole → Result BindingError RosterDrone
unfolding assert_representative_role
verified_self (some self) (some role) = do permitted ← assert_representative_role role self; ok self
verified_self self role = err seat_unavailable

unfoldable pub verified_coordinator :
    Option RosterDrone → Option RosterRole → Result BindingError RosterDrone
verified_coordinator (some coordinator) (some role) =
    if role.is_human_seat then ok coordinator else err coordinator_unavailable
verified_coordinator coordinator role = err coordinator_unavailable

unfoldable pub assert_bound_seat : RepresentativeBinding → Whoami → Result BindingError (Unit {0})
assert_bound_seat binding me =
    if not (me.cube_id == binding.cube_id) || not (me.drone_id == binding.representative_drone_id)
    then err binding_mismatch
    else ok tt

unfoldable pub verified_in :
    RepresentativeBinding → Roster → Result BindingError (RosterDrone × RosterDrone)
verified_in binding roster = do
  let own = find_drone binding.representative_drone_id roster.drones
  self ← verified_self own (role_of own roster.roles)
  let bound = find_drone binding.coordinator_drone_id roster.drones
  coordinator ← verified_coordinator bound (role_of bound roster.roles)
  ok (coordinator, self)

-- The coordinator and the own drone, as the live roster has them.
unfoldable pub verify_live_binding :
    RepresentativeBinding
    → Result BindingError Whoami
    → Result BindingError Roster
    → Result BindingError (RosterDrone × RosterDrone)
verify_live_binding binding whoami answer = do
  me ← whoami
  seat ← assert_bound_seat binding me
  roster ← answer
  verified_in binding roster
