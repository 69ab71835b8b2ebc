-- ===== src/Representative/Point.antt =====
-- Positions in the cube's activity log (`LocalServerCursor` of src/local-server-cursor.ts) and
-- their order (`comparePoints`, `later` of src/representative-delivery-store.ts).
pub mod Order
use Prim.Native.Nat.{Ordering}
use borg_mcp_client.Prelude.{
  Bool, true, false, not, Option, none, some, List, [], ◌∷◌, if◌then◌else◌,
}
use borg_mcp_client.Text.{Text, ◌==◌}
use borg_mcp_client.Text.Order.{text_lt}

pub record Point : Type 0 where
  pub id : Text
  pub created_at : Text

-- `(created_at, id)` order; every point is after `null`. The numbers 1, 0, -1 are gt, eq, lt.
unfoldable pub compare_points : Point → Option Point → Ordering
compare_points a none = Ordering.gt
compare_points a (some b) =
    if not (a.created_at == b.created_at)
    then (if text_lt a.created_at b.created_at then Ordering.lt else Ordering.gt)
    else if a.id == b.id
    then Ordering.eq
    else if text_lt a.id b.id
    then Ordering.lt
    else Ordering.gt

-- `comparePoints(a, b) > 0` and `comparePoints(a, b) >= 0`
abbrev pub is_gt : Ordering → Bool
is_gt Ordering.gt = true
is_gt _ = false

abbrev pub is_ge : Ordering → Bool
is_ge Ordering.lt = false
is_ge _ = true

unfoldable pub later : Option Point → Option Point → Option Point
later none b = b
later (some a) none = some a
later (some a) (some b) = if is_ge (compare_points a (some b)) then some a else some b

-- `array.sort((a, b) => comparePoints(a, b))`
unfoldable pub insert_point : Point → List Point → List Point
insert_point p [] = p ∷ []
insert_point p (q ∷ qs) =
    let rest = insert_point p qs in
    if is_gt (compare_points p (some q)) then q ∷ rest else p ∷ q ∷ qs

unfoldable pub sort_points : List Point → List Point
unfolding insert_point
sort_points [] = []
sort_points (p ∷ ps) = insert_point p (sort_points ps)
