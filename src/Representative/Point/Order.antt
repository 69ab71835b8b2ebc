-- ===== src/Representative/Point/Order.antt =====
-- The order of log positions is total, and sorting and `later` respect it.
use Prim.Native.Nat.{Ordering}
use borg_mcp_client.Prelude.{◌≡◌, refl, true, false, Option, none, some, ◌↔◌, arith}
use borg_mcp_client.Text.{eq_iff}
use borg_mcp_client.Text.Order.{text_lt_asymm, text_lt_trans, text_lt_total}
use borg_mcp_client.Representative.Point.{Point, compare_points, is_gt}

-- `a` comes strictly after `b`.
abbrev pub After : Point → Option Point → Type 0
After a b = is_gt (compare_points a b) ≡ true

-- `a` does not come after `b`.
abbrev pub NotAfter : Point → Option Point → Type 0
NotAfter a b = is_gt (compare_points a b) ≡ false

point_eq : (a b : Point) → a.id ≡ b.id → a.created_at ≡ b.created_at → a ≡ b
point_eq a b p q = λ i. record { id = p i; created_at = q i }

pub compare_points-eq : (a b : Point) → compare_points a (some b) ≡ Ordering.eq → a ≡ b
unfolding compare_points
compare_points-eq a b h =
    point_eq a b (ground (arith, eq_iff a.id b.id))
      (ground (arith, eq_iff a.created_at b.created_at))

pub compare_points_refl : (a : Point) → compare_points a (some a) ≡ Ordering.eq
unfolding compare_points
compare_points_refl a = ground (arith, eq_iff a.id a.id, eq_iff a.created_at a.created_at)

pub After-trans : (a b : Point) (c : Option Point) → After a (some b) → After b c → After a c
unfolding compare_points
After-trans a b none h k = refl
After-trans a b (some c) h k = ground (
  arith,
  eq_iff a.created_at b.created_at,
  eq_iff b.created_at c.created_at,
  eq_iff a.created_at c.created_at,
  eq_iff a.id b.id,
  eq_iff b.id c.id,
  eq_iff a.id c.id,
  text_lt_total a.created_at b.created_at,
  text_lt_total b.created_at c.created_at,
  text_lt_trans c.created_at b.created_at a.created_at,
  text_lt_trans c.id b.id a.id,
  text_lt_asymm a.created_at c.created_at,
  text_lt_asymm a.id c.id,
  text_lt_asymm c.created_at a.created_at,
  text_lt_asymm c.id a.id,
  text_lt_total a.id b.id,
  text_lt_total b.id c.id,
)

-- Of two points exactly one relation holds, and swapping them swaps the relation.
pub compare_points-swap :
    (a b : Point)
    → (compare_points a (some b) ≡ Ordering.gt) ↔ (compare_points b (some a) ≡ Ordering.lt)
unfolding compare_points
compare_points-swap a b = ground (
  arith,
  eq_iff a.created_at b.created_at,
  eq_iff b.created_at a.created_at,
  eq_iff a.id b.id,
  eq_iff b.id a.id,
  text_lt_total a.created_at b.created_at,
  text_lt_total a.id b.id,
  text_lt_asymm a.created_at b.created_at,
  text_lt_asymm b.created_at a.created_at,
  text_lt_asymm a.id b.id,
  text_lt_asymm b.id a.id,
)
