-- ===== src/Representative/Delivery/Fence.antt =====
-- The delivered checkpoint never passes the read fence (src/representative-delivery-store.ts).
use borg_mcp_client.Prelude.{
  ◌+◌, ◌-◌, ◌≤◌, ◌≡◌, refl, false, Option, none, some, List, [], ◌∷◌, ◌++◌, arith,
}
use borg_mcp_client.Prelude.Result.{ok}
use borg_mcp_client.Prelude.Lists.{All, All-of_filter, All-drop, filter, last, length, length-drop}
use borg_mcp_client.Representative.Point.{
  Point, compare_points, is_gt, later, insert_point, sort_points,
}
use borg_mcp_client.Representative.Point.Order.{
  After, After-trans, compare_points-swap, compare_points_refl,
}
use borg_mcp_client.Representative.Delivery.{
  DeliveryState, is_beyond, write, widened, widen_read_window, keep_first, returned_cap, loaded,
  without_passed,
}

-- The checkpoint is not beyond the fence, every returned entry comes after the checkpoint, and at
-- most 100 are kept.
pub record Fenced (s : DeliveryState) : Type 0 where
  pub within : is_beyond s.checkpoint s.read_through ≡ false
  pub undelivered : All (λ p. After p s.checkpoint) s.returned
  pub capped : length s.returned ≤ returned_cap

All-insert_point {κ} :
    (P : Point → Type κ) (p : Point) (ps : List Point) → P p → All P ps → All P (insert_point p ps)
unfolding insert_point
All-insert_point P p [] h hs = (h, tt)
All-insert_point P p (q ∷ qs) h (k, ks) =
    let rest = All-insert_point P p qs h ks in ground (arith, rest)

pub All-sort_points {κ} : (P : Point → Type κ) (ps : List Point) → All P ps → All P (sort_points ps)
unfolding sort_points
All-sort_points P [] h = tt
All-sort_points P (p ∷ ps) (h, hs) =
    All-insert_point P p (sort_points ps) h (All-sort_points P ps hs)

length-insert_point : (p : Point) (ps : List Point) → length (insert_point p ps) ≡ length ps + 1
unfolding insert_point
length-insert_point p [] = omega arith
length-insert_point p (q ∷ qs) = ground (arith, length-insert_point p qs)

pub length-sort_points : (ps : List Point) → length (sort_points ps) ≡ length ps
unfolding sort_points
length-sort_points [] = refl
length-sort_points (p ∷ ps) =
    omega (arith, length-insert_point p (sort_points ps), length-sort_points ps)

-- `later` moves forward only.
pub later_grows :
    (a b : Option Point) (c : Point)
    → later a b ≡ some c
    → (is_beyond a (some c) ≡ false) × (is_beyond b (some c) ≡ false)
unfolding later
later_grows none none c h = cc
later_grows none (some b) c h = ground (arith, compare_points_refl b)
later_grows (some a) none c h = ground (arith, compare_points_refl a)
later_grows (some a) (some b) c h = ground (
  arith,
  compare_points_refl a,
  compare_points_refl b,
  compare_points-swap a b,
  compare_points-swap b a,
)

pub is_beyond-later :
    (reached a : Option Point) (b : Option Point)
    → is_beyond reached a ≡ false
    → is_beyond reached (later a b) ≡ false
is_beyond-later none a b h = refl
is_beyond-later (some r) none b h = unfold compare_points in cc
is_beyond-later (some r) (some a) none h = unfold later in h
is_beyond-later (some r) (some a) (some b) h =
    unfold later in ground (arith, compare_points-swap b a, After-trans r b (some a))

pub write-Fenced : (next : DeliveryState) → Fenced next → write next ≡ ok (without_passed next)
unfolding write
write-Fenced next f = rw f.within refl

pub widened-Fenced :
    (row : DeliveryState) (window : List Point) → Fenced row → Fenced (widened (loaded row) window)
unfolding widened
widened-Fenced row window f =
    let kept =
      filter (λ entry. is_gt (compare_points entry row.checkpoint))
        (keep_first [] (sort_points row.returned ++ window)) in
    record {
      within = is_beyond-later row.checkpoint row.read_through (last window) f.within;
      undelivered = All-drop _ _ _ (
          All-sort_points _ kept (
            All-of_filter (λ entry. is_gt (compare_points entry row.checkpoint))
              (keep_first [] (sort_points row.returned ++ window))));
      capped =
          omega (arith, length-drop (length (sort_points kept) - returned_cap) (sort_points kept));
    }

is_beyond-later_self : (a b : Option Point) → is_beyond a (later a b) ≡ false
is_beyond-later_self none b = refl
is_beyond-later_self (some a) b =
    is_beyond-later (some a) (some a) b (ground (arith, compare_points_refl a))

-- Recording the window that `read` returned is not refused; the checkpoint and the start stay, the
-- fence does not move back, and the state stays fenced.
pub widen_read_window-Fenced :
    (row : DeliveryState) (p : Point) (window : List Point)
    → Fenced row
    → (after : DeliveryState) × (widen_read_window (some row) (p ∷ window) ≡ ok (some after))
      × Fenced after
      × (after.checkpoint ≡ row.checkpoint)
      × (after.start ≡ row.start)
      × (is_beyond row.read_through after.read_through ≡ false)
widen_read_window-Fenced row p window f =
    let next = widened (loaded row) (p ∷ window) in
    let fenced = widened-Fenced row (p ∷ window) f in
    (
      without_passed next,
      unfold widen_read_window in rw (write-Fenced next fenced) refl,
      record { within = fenced.within; undelivered = fenced.undelivered; capped = fenced.capped },
      unfold widened in refl,
      unfold widened in refl,
      unfold widened in is_beyond-later_self row.read_through (last (p ∷ window)),
    )
