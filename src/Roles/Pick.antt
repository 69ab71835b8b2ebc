-- ===== src/Roles/Pick.antt =====
-- `occupiedRoleIdsForAutoRole` and `pickDefaultRole` of src/role-resolver.ts.
use borg_mcp_client.Prelude.{
  ◌≡◌, refl, Bool, true, false, not, ◌&&◌, Option, none, some, List, [], ◌∷◌, map, arith,
  if◌then◌else◌,
}
use borg_mcp_client.Prelude.Lists.{filter, find, any}
use borg_mcp_client.Text.{Text, member}
use borg_mcp_client.Roles.Slug.{Role}

pub record RoleOccupant : Type 0 where
  pub role_id : Text
  pub presumed_abandoned : Bool

abbrev pub holds_seat : RoleOccupant → Bool
holds_seat drone = not drone.presumed_abandoned

abbrev pub role_id_of : RoleOccupant → Text
role_id_of drone = drone.role_id

unfoldable pub occupied_role_ids : List RoleOccupant → List Text
occupied_role_ids drones = map role_id_of (filter holds_seat drones)

abbrev pub is_human : Role → Bool
is_human r = r.is_human_seat

abbrev pub is_mandatory : Role → Bool
is_mandatory r = r.is_mandatory && not r.is_queen

abbrev pub is_eligible : Role → Bool
is_eligible r = not r.is_queen && not r.is_human_seat

abbrev pub is_free : List Text → Role → Bool
is_free occupied r = not (member r.id occupied)

abbrev pub is_default_role : Role → Bool
is_default_role r = r.is_default

-- `a ?? b`
abbrev pub or_else : Option Role → Option Role → Option Role
or_else none b = b
or_else (some r) b = some r

unfoldable pub pick_free : List Role → List Text → Option Role
unfolding member
pick_free roles occupied =
    or_else (find (is_free occupied) (filter is_mandatory roles))
      (or_else (find (is_free occupied) (filter is_eligible roles)) (find is_default_role roles))

unfoldable pub pick_default_role : List Role → Bool → List Text → Option Role
unfolding pick_free
pick_default_role roles is_first_drone occupied =
    if is_first_drone
    then or_else (find is_human roles) (pick_free roles occupied)
    else pick_free roles occupied

-- whether a free mandatory role, or a free eligible one, is among the roles
abbrev pub has_mandatory : List Text → List Role → Bool
has_mandatory occupied roles = any (is_free occupied) (filter is_mandatory roles)

abbrev pub has_eligible : List Text → List Role → Bool
has_eligible occupied roles = any (is_free occupied) (filter is_eligible roles)

-- Why a role was picked, each reason with the failure of those before it.
pub data Picked (roles : List Role) (is_first : Bool) (occupied : List Text) (r : Role)
    : Type 0 where
  as_human : is_first ≡ true → is_human r ≡ true → Picked roles is_first occupied r
  as_mandatory :
      (is_first && any is_human roles) ≡ false
      → is_mandatory r ≡ true
      → is_free occupied r ≡ true
      → Picked roles is_first occupied r
  as_eligible :
      (is_first && any is_human roles) ≡ false
      → has_mandatory occupied roles ≡ false
      → is_eligible r ≡ true
      → is_free occupied r ≡ true
      → Picked roles is_first occupied r
  as_default :
      (is_first && any is_human roles) ≡ false
      → has_mandatory occupied roles ≡ false
      → has_eligible occupied roles ≡ false
      → is_default_role r ≡ true
      → Picked roles is_first occupied r

-- what a search found, or that there was nothing to find
pub data Search (test : Role → Bool) (roles : List Role) : Option Role → Type 0 where
  missed : any test roles ≡ false → Search test roles none
  hit : (r : Role) → test r ≡ true → Search test roles (some r)

Search-next :
    (test : Role → Bool) (r : Role) (roles : List Role) (found : Option Role) (here : Bool)
    → test r ≡ here
    → Search test roles found
    → Search test (r ∷ roles) (if here then some r else found)
Search-next test r roles found true h s = hit r h
Search-next test r roles none false h (missed m) = missed (rw h m)
Search-next test r roles (some q) false h (hit p k) = hit p k

find-Search : (test : Role → Bool) (roles : List Role) → Search test roles (find test roles)
find-Search test [] = missed refl
find-Search test (r ∷ roles) =
    Search-next test r roles (find test roles) (test r) refl (find-Search test roles)

-- what a search in a filtered list finds passes the filter
pub data Filtered (keep test : Role → Bool) (roles : List Role) : Option Role → Type 0 where
  nothing : any test (filter keep roles) ≡ false → Filtered keep test roles none
  passed : (r : Role) → keep r ≡ true → test r ≡ true → Filtered keep test roles (some r)

Filtered-next :
    (keep test : Role → Bool) (r : Role) (roles : List Role) (found : Option Role)
    (kept here : Bool)
    → keep r ≡ kept
    → test r ≡ here
    → find test (filter keep roles) ≡ found
    → Filtered keep test roles found
    → Filtered keep test (r ∷ roles) (if kept then (if here then some r else found) else found)
Filtered-next keep test r roles found true true k h e s = passed r k h
Filtered-next keep test r roles none true false k h e (nothing m) = nothing (rw k (rw h m))
Filtered-next keep test r roles (some q) true false k h e (passed p a b) = passed p a b
Filtered-next keep test r roles none false here k h e (nothing m) = nothing (rw k m)
Filtered-next keep test r roles (some q) false here k h e (passed p a b) = passed p a b

find-filter_if :
    (keep test : Role → Bool) (r : Role) (roles : List Role)
    → find test (filter keep (r ∷ roles)) ≡ (
        if keep r
        then (if test r then some r else find test (filter keep roles))
        else find test (filter keep roles))
find-filter_if keep test r roles = ground arith

find-Filtered :
    (keep test : Role → Bool) (roles : List Role)
    → Filtered keep test roles (find test (filter keep roles))
find-Filtered keep test [] = nothing refl
find-Filtered keep test (r ∷ roles) = rw (find-filter_if keep test r roles) (
    Filtered-next keep test r roles (find test (filter keep roles)) (keep r) (test r) refl refl refl
      (find-Filtered keep test roles))

-- nothing is picked only if every search fails
abbrev pub Chosen : List Role → Bool → List Text → Option Role → Type 0
Chosen roles is_first occupied none =
    ((is_first && any is_human roles) ≡ false)
    × (has_mandatory occupied roles ≡ false)
    × (has_eligible occupied roles ≡ false)
    × (any is_default_role roles ≡ false)
Chosen roles is_first occupied (some r) = Picked roles is_first occupied r

default-Chosen :
    (roles : List Role) (is_first : Bool) (occupied : List Text) (found : Option Role)
    → (is_first && any is_human roles) ≡ false
    → has_mandatory occupied roles ≡ false
    → has_eligible occupied roles ≡ false
    → Search is_default_role roles found
    → Chosen roles is_first occupied found
default-Chosen roles is_first occupied none f m e (missed d) = (f, m, e, d)
default-Chosen roles is_first occupied (some r) f m e (hit q d) = as_default f m e d

eligible-Chosen :
    (roles : List Role) (is_first : Bool) (occupied : List Text) (found : Option Role)
    → (is_first && any is_human roles) ≡ false
    → has_mandatory occupied roles ≡ false
    → Filtered is_eligible (is_free occupied) roles found
    → Chosen roles is_first occupied (or_else found (find is_default_role roles))
eligible-Chosen roles is_first occupied none f m (nothing e) =
    default-Chosen roles is_first occupied (find is_default_role roles) f m e
      (find-Search is_default_role roles)
eligible-Chosen roles is_first occupied (some r) f m (passed q k h) = as_eligible f m k h

mandatory-Chosen :
    (roles : List Role) (is_first : Bool) (occupied : List Text) (found : Option Role)
    → (is_first && any is_human roles) ≡ false
    → Filtered is_mandatory (is_free occupied) roles found
    → Chosen roles is_first occupied (
        or_else found (
          or_else
            (find (is_free occupied) (filter is_eligible roles))
            (find is_default_role roles)))
mandatory-Chosen roles is_first occupied none f (nothing m) =
    eligible-Chosen roles is_first occupied (find (is_free occupied) (filter is_eligible roles)) f m
      (find-Filtered is_eligible (is_free occupied) roles)
mandatory-Chosen roles is_first occupied (some r) f (passed q k h) = as_mandatory f k h

pick_free-Chosen :
    (roles : List Role) (is_first : Bool) (occupied : List Text)
    → (is_first && any is_human roles) ≡ false
    → Chosen roles is_first occupied (pick_free roles occupied)
unfolding pick_free
pick_free-Chosen roles is_first occupied f =
    mandatory-Chosen roles is_first occupied (find (is_free occupied) (filter is_mandatory roles)) f
      (find-Filtered is_mandatory (is_free occupied) roles)

human-Chosen :
    (roles : List Role) (occupied : List Text) (found : Option Role)
    → Search is_human roles found
    → Chosen roles true occupied (or_else found (pick_free roles occupied))
human-Chosen roles occupied none (missed m) = pick_free-Chosen roles true occupied m
human-Chosen roles occupied (some r) (hit q h) = as_human refl h

-- A picked role is the human seat for the first drone; else, with no human seat to give, a free
-- mandatory role that is no queen; else, with none of these, a free worker role; else, with none
-- of these either, the default role. Nothing is picked only if all these searches fail.
pub pick_default_role-Chosen :
    (roles : List Role) (is_first : Bool) (occupied : List Text)
    → Chosen roles is_first occupied (pick_default_role roles is_first occupied)
unfolding pick_default_role
pick_default_role-Chosen roles true occupied =
    human-Chosen roles occupied (find is_human roles) (find-Search is_human roles)
pick_default_role-Chosen roles false occupied = pick_free-Chosen roles false occupied refl
