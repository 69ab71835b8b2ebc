-- ===== src/Representative/Delivery/Exact.antt =====
-- What a delivery through an entry leaves of the row (src/representative-core.ts and
-- src/representative-delivery-store.ts).
use borg_mcp_client.Prelude.{
  ◌≡◌, refl, true, false, not, some, List, [], ◌∷◌, arith, inl, inr, Bool-cases, ◌⊎◌,
}
use borg_mcp_client.Prelude.Result.{ok, err}
use borg_mcp_client.Prelude.Lists.{filter}
use borg_mcp_client.Text.{eq_iff}
use borg_mcp_client.Text.Order.{text_lt_asymm, text_lt_total, text_lt_irrefl}
use borg_mcp_client.Representative.Point.{Point, compare_points, is_gt, sort_points}
use borg_mcp_client.Representative.Point.Order.{After, NotAfter}
use borg_mcp_client.Representative.Delivery.{
  DeliveryState, unknown_entry, advanced, is_passed, Delivered, deliver, loaded, without_passed,
}
use borg_mcp_client.Representative.Delivery.Fence.{Fenced}
use borg_mcp_client.Representative.Delivery.Deliver.{
  IsReturned, IsReturned-cases, later-After, deliver_cases,
}

-- Those of the points that come after `p`.
abbrev pub after_point : Point → List Point → List Point
after_point p ps = filter (λ q. is_gt (compare_points q (some p))) ps

-- The checkpoint stands at exactly the entry; the returned entries and the replies that are counted
-- for the wake are those after it; the rest of the row is as it was.
pub record HasReached (row : DeliveryState) (p : Point) (d : Delivered) : Type 0 where
  pub reported : d.checkpoint ≡ some p
  pub moved : d.advanced ≡ true
  pub stored : d.row.checkpoint ≡ some p
  pub returned : d.row.returned ≡ after_point p (sort_points row.returned)
  pub wakes : d.row.wake_replies ≡ after_point p row.wake_replies
  pub fence : d.row.read_through ≡ row.read_through
  pub start : d.row.start ≡ row.start
  pub kind : d.row.start_kind ≡ row.start_kind
  pub seat : d.row.seat ≡ row.seat

-- The condition of the deletion keeps the points that come after the checkpoint.
is_passed_lem : (p q : Point) → not (is_passed (some p) q) ≡ is_gt (compare_points q (some p))
unfolding compare_points
is_passed_lem p q = ground (
  arith,
  eq_iff q.created_at p.created_at,
  eq_iff q.id p.id,
  text_lt_irrefl q.created_at,
  text_lt_irrefl q.id,
  text_lt_total q.created_at p.created_at,
  text_lt_total q.id p.id,
  text_lt_asymm q.created_at p.created_at,
  text_lt_asymm q.id p.id,
)

filter-is_passed :
    (p : Point) (ps : List Point) → filter (λ q. not (is_passed (some p) q)) ps ≡ after_point p ps
filter-is_passed p [] = refl
filter-is_passed p (q ∷ ps) = rw (is_passed_lem p q, filter-is_passed p ps) refl

advanced-HasReached :
    (row : DeliveryState) (p : Point)
    → After p row.checkpoint
    → HasReached row p (record {
      checkpoint = some p;
      advanced = true;
      row = without_passed (advanced (loaded row) p);
    })
unfolding advanced
advanced-HasReached row p a =
    let reached = later-After row.checkpoint p a in
    record {
      reported = refl;
      moved = refl;
      stored = reached;
      returned = rw reached refl;
      wakes = rw reached (filter-is_passed p row.wake_replies);
      fence = refl;
      start = refl;
      kind = refl;
      seat = refl;
    }

-- In a fenced state, deliver through an entry after the checkpoint that a read returned succeeds: the
-- checkpoint moves to exactly that entry, of the returned entries and of the replies counted for the
-- wake exactly those after it are kept, and the rest of the row stays. Through an entry at or before
-- the checkpoint it changes nothing; through any other entry it is refused.
pub deliver_exact :
    (row : DeliveryState) (p : Point)
    → Fenced row
    → (After p row.checkpoint
        × IsReturned row p
        × ((d : Delivered) × (deliver (some row) p ≡ ok d) × HasReached row p d))
      ⊎ ((NotAfter p row.checkpoint
            × (deliver (some row) p
                ≡ ok (record { checkpoint = row.checkpoint; advanced = false; row = row })))
          ⊎ (After p row.checkpoint
              × ¬ (IsReturned row p)
              × (deliver (some row) p ≡ err unknown_entry)))
deliver_exact row p f =
    let (forward, stay, refused) = deliver_cases row p f in
    elim (Bool-cases (is_gt (compare_points p row.checkpoint))) [
      | inr b ↦ inr (inl (b, stay b))
      | inl a ↦ elim (IsReturned-cases row p) [
        | inl h ↦ inl (a, h, (_, forward a h, advanced-HasReached row p a))
        | inr n ↦ inr (inr (a, n, refused a n))
      ]
    ]
