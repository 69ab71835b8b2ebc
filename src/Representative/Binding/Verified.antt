-- ===== src/Representative/Binding/Verified.antt =====
-- What the checks of src/representative-core.ts establish about the Coordinator.
use borg_mcp_client.Prelude.{
  ◌≡◌, ◌≢◌, sym, ap, ◌∙◌, Bool, true, false, Option, none, some, List, [], ◌∷◌, arith, Bool-cases,
  Option-cases, inl, inr,
}
use mathlib.Core.List.{Memᴰ}
use borg_mcp_client.Prelude.Result.{ok, >>=-eq-ok}
use borg_mcp_client.Prelude.Lists.{filter, find}
use borg_mcp_client.Text.{Text, ◌==◌, eq_iff}
use borg_mcp_client.Representative.Binding.{
  RosterRole, RosterDrone, Roster, Whoami, RepresentativeBinding, is_queen, find_drone, find_role,
  role_of, resolve_coordinator, resolve_match, verify_live_binding, verified_self,
  verified_coordinator, verified_in, assert_bound_seat,
}

find_sound {ℓ} :
    {A : Type ℓ} (test : A → Bool) (xs : List A) (a : A)
    → find test xs ≡ some a
    → Memᴰ a xs × (test a ≡ true)
find_sound test [] a h = cc
find_sound test (x ∷ xs) a h = elim (Bool-cases (test x)) [
  | inl yes' ↦ let e : x ≡ a = ground arith in (Memᴰ.head (sym e), ap test (sym e) ∙ yes')
  | inr no' ↦ let (m, t) = find_sound test xs a (ground arith) in (Memᴰ.tail m, t)
]

-- The drone holds a role of the roster, found by its id, that is a human seat.
pub record HoldsHumanSeat (roster : Roster) (drone : RosterDrone) (role : RosterRole) : Type 0 where
  pub found : find_role drone.role_id roster.roles ≡ some role
  pub human : role.is_human_seat ≡ true

resolve_match_sound :
    (roster : Roster) (self_drone_id : Text) (matches : List RosterDrone) (drone : RosterDrone)
    (role : RosterRole)
    → resolve_match roster self_drone_id matches ≡ ok (drone, role)
    → (matches ≡ drone ∷ []) × (drone.id ≢ self_drone_id) × HoldsHumanSeat roster drone role
unfolding resolve_match
resolve_match_sound roster self_drone_id [] drone role h = cc
resolve_match_sound roster self_drone_id (d ∷ e ∷ ds) drone role h = cc
resolve_match_sound roster self_drone_id (d ∷ []) drone role h =
    elim (Option-cases (find_role d.role_id roster.roles)) [
      | inl gone ↦ ground (arith, gone)
      | inr (r, found) ↦
          let e : d ≡ drone = ground (arith, found) in
          let k : r ≡ role = ground (arith, found) in
          (
            ap (λ x. x ∷ []) e,
            rw (← e) (λ same. ground (arith, found, eq_iff d.id self_drone_id)),
            rw (← e) (rw (← k) (record { found = found; human = ground (arith, found) })),
          )
    ]

-- Exactly one drone of the roster has the label, it is not the representative itself, and it holds
-- a human-seat role, whenever a Coordinator is resolved.
pub resolve_coordinator_sound :
    (roster : Roster) (label self_drone_id : Text) (drone : RosterDrone) (role : RosterRole)
    → resolve_coordinator roster label self_drone_id ≡ ok (drone, role)
    → (filter (λ d. d.label == label) roster.drones ≡ drone ∷ [])
      × (drone.id ≢ self_drone_id)
      × HoldsHumanSeat roster drone role
unfolding resolve_coordinator
resolve_coordinator_sound roster label self_drone_id drone role h =
    resolve_match_sound roster self_drone_id _ drone role h

-- What a successful check says of the live cube.
pub record IsLive (b : RepresentativeBinding) (me : Whoami) (roster : Roster)
    (coordinator self : RosterDrone) : Type 0 where
  pub cube : me.cube_id ≡ b.cube_id
  pub seat : me.drone_id ≡ b.representative_drone_id
  pub own : find_drone b.representative_drone_id roster.drones ≡ some self
  pub bound : find_drone b.coordinator_drone_id roster.drones ≡ some coordinator
  pub own_role : RosterRole
  pub bound_role : RosterRole
  pub own_found : find_role self.role_id roster.roles ≡ some own_role
  pub plain : (own_role.is_human_seat ≡ false) × (is_queen own_role.role_class ≡ false)
  pub worker : self.is_queen_class ≡ false
  pub seated : HoldsHumanSeat roster coordinator bound_role

verified_self_sound :
    (own : Option RosterDrone) (roles : List RosterRole) (self : RosterDrone)
    → verified_self own (role_of own roles) ≡ ok self
    → (role : RosterRole) × (own ≡ some self)
      × (find_role self.role_id roles ≡ some role)
      × (role.is_human_seat ≡ false)
      × (is_queen role.role_class ≡ false)
      × (self.is_queen_class ≡ false)
unfolding verified_self
verified_self_sound none roles self h = cc
verified_self_sound (some own) roles self h = elim (Option-cases (find_role own.role_id roles)) [
  | inl gone ↦ ground (arith, gone)
  | inr (role, found) ↦
      let e : own ≡ self = ground (arith, found) in
      (
        role,
        ap some e,
        ap (λ (d : RosterDrone). find_role d.role_id roles) (sym e) ∙ found,
        ground (arith, found),
        ground (arith, found),
        ap (λ (d : RosterDrone). d.is_queen_class) (sym e) ∙ ground (arith, found),
      )
]

verified_coordinator_sound :
    (bound : Option RosterDrone) (roster : Roster) (coordinator : RosterDrone)
    → verified_coordinator bound (role_of bound roster.roles) ≡ ok coordinator
    → (role : RosterRole) × (bound ≡ some coordinator) × HoldsHumanSeat roster coordinator role
unfolding verified_coordinator
verified_coordinator_sound none roster coordinator h = cc
verified_coordinator_sound (some d) roster coordinator h =
    elim (Option-cases (find_role d.role_id roster.roles)) [
      | inl gone ↦ ground (arith, gone)
      | inr (role, found) ↦
          let e : d ≡ coordinator = ground (arith, found) in
          (role, ap some e, rw (← e) (record { found = found; human = ground (arith, found) }))
    ]

verified_in_parts :
    (b : RepresentativeBinding) (roster : Roster) (coordinator self : RosterDrone)
    → verified_in b roster ≡ ok (coordinator, self)
    → let own = find_drone b.representative_drone_id roster.drones in
      let bound = find_drone b.coordinator_drone_id roster.drones in
      (verified_self own (role_of own roster.roles) ≡ ok self)
      × (verified_coordinator bound (role_of bound roster.roles) ≡ ok coordinator)
unfolding verified_in
verified_in_parts b roster coordinator self h =
    let own = find_drone b.representative_drone_id roster.drones in
    let bound = find_drone b.coordinator_drone_id roster.drones in
    let (s, sound, h₂) = >>=-eq-ok (verified_self own (role_of own roster.roles)) _ h in
    let (c, seated, h₃) =
      >>=-eq-ok (verified_coordinator bound (role_of bound roster.roles)) _ h₂ in
    let es : s ≡ self = ground arith in
    let ec : c ≡ coordinator = ground arith in (sound ∙ ap ok es, seated ∙ ap ok ec)

-- After a successful check the connection is the bound cube and drone; the representative's own
-- role is neither a human seat nor queen-class; and the bound Coordinator is in the roster with a
-- human-seat role.
pub verify_live_binding-IsLive :
    (b : RepresentativeBinding) (me : Whoami) (roster : Roster) (coordinator self : RosterDrone)
    → verify_live_binding b (ok me) (ok roster) ≡ ok (coordinator, self)
    → IsLive b me roster coordinator self
unfolding verify_live_binding
verify_live_binding-IsLive b me roster coordinator self h =
    let (seat, checked, h₁) = >>=-eq-ok (assert_bound_seat b me) _ h in
    let (sound, seated) = verified_in_parts b roster coordinator self h₁ in
    let (role, own_eq, found, plain, not_queen, worker) =
      verified_self_sound (find_drone b.representative_drone_id roster.drones) roster.roles self
        sound in
    let (bound_role, bound_eq, human) =
      verified_coordinator_sound (find_drone b.coordinator_drone_id roster.drones) roster
        coordinator seated in
    record {
      cube = unfold assert_bound_seat in ground (arith, checked, eq_iff me.cube_id b.cube_id);
      seat =
          unfold assert_bound_seat in
          ground (arith, checked, eq_iff me.drone_id b.representative_drone_id);
      own = own_eq;
      bound = bound_eq;
      own_role = role;
      bound_role = bound_role;
      own_found = found;
      plain = (plain, not_queen);
      worker = worker;
      seated = human;
    }

-- A representative that passes the check is never its own Coordinator.
pub verify_live_binding-distinct :
    (b : RepresentativeBinding) (me : Whoami) (roster : Roster) (coordinator self : RosterDrone)
    → verify_live_binding b (ok me) (ok roster) ≡ ok (coordinator, self)
    → b.coordinator_drone_id ≢ b.representative_drone_id
verify_live_binding-distinct b me roster coordinator self h same =
    let live = verify_live_binding-IsLive b me roster coordinator self h in
    let e : some coordinator ≡ some self =
      sym live.bound ∙ ap (λ id. find_drone id roster.drones) same ∙ live.own in
    let d : coordinator ≡ self = ground (arith, e) in
    let r : some live.bound_role ≡ some live.own_role =
      sym live.seated.found
      ∙ ap (λ (d : RosterDrone). find_role d.role_id roster.roles) d
      ∙ live.own_found in
    ground (arith, r, live.plain.0, live.seated.human)
