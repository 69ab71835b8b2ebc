-- ===== src/Representative/Read/Floor.antt =====
-- Where the scan of `readRepresentativeReplies` (src/representative-core.ts) starts, as `scanStart`
-- of src/representative-delivery-store.ts says, and what that means for what it collects.
use Prim.Native.Nat.{Ordering}
use borg_mcp_client.Prelude.{
  ℕ, ◌≡◌, refl, Option, none, some, List, [], ◌∷◌, arith, inl, inr, Bool-cases,
}
use borg_mcp_client.Prelude.Lists.{All, All-weaken}
use borg_mcp_client.Prelude.Result.{ok}
use borg_mcp_client.Representative.Point.{Point, compare_points}
use borg_mcp_client.Representative.Point.Order.{
  After, After-trans, compare_points-eq, compare_points-swap,
}
use borg_mcp_client.Representative.Delivery.{
  DeliveryState, loaded, later_than, scan_start, is_head_pending,
}
use borg_mcp_client.Representative.Read.{
  Page, Candidate, Scanned, Request, scan_pages, scanned_from,
}
use borg_mcp_client.Representative.Read.Scan.{Ascending, scan_pages-Ordered}

After-none : (c : Point) → After c none
unfolding compare_points
After-none c = refl

-- The order of the two positions decides which is the floor.
After-both :
    (c start reached : Point) (order : Ordering)
    → compare_points start (some reached) ≡ order
    → After c (some (later_than start (some reached)))
    → After c (some start) × After c (some reached)
After-both c start reached Ordering.gt e h =
    let k : After c (some start) = rw e at h in
    (k, After-trans c start (some reached) k (rw e refl))
After-both c start reached Ordering.eq e h =
    let k : After c (some start) = rw e at h in (k, rw (compare_points-eq start reached e) at k)
After-both c start reached Ordering.lt e h =
    let k : After c (some reached) = rw e at h in
    (After-trans c reached (some start) k (ground (arith, compare_points-swap reached start)), k)

After-later_than :
    (c start : Point) (reached : Option Point)
    → After c (some (later_than start reached))
    → After c (some start) × After c reached
After-later_than c start none h = (h, After-none c)
After-later_than c start (some reached) h =
    After-both c start reached (compare_points start (some reached)) refl h

-- `scanStart` answers the later of the start and the checkpoint as the floor.
scan_start-later_than :
    (row : DeliveryState) (cursor : Option Point) (floor : Point)
    → scan_start (loaded row) ≡ ok (cursor, floor)
    → later_than row.start row.checkpoint ≡ floor
unfolding scan_start
scan_start-later_than row cursor floor h = elim (Bool-cases (is_head_pending row.start_kind)) [
  | inl unresolved ↦ ground (arith, unresolved)
  | inr resolved ↦ ground (arith, resolved)
]

Ascending-All :
    (floor : Point) (cs : List Candidate)
    → Ascending floor cs
    → All (λ c. After c.point (some floor)) cs
Ascending-All floor [] u = tt
Ascending-All floor (c ∷ cs) (a, rest) = (
  a,
  All-weaken (λ d. After d.point (some c.point)) (λ d. After d.point (some floor)) cs
      (λ d b. After-trans d.point c.point (some floor) b a) (Ascending-All c.point cs rest),
)

Ascending-lower :
    (floor low : Point) (cs : List Candidate)
    → All (λ c. After c.point (some low)) cs
    → Ascending floor cs
    → Ascending low cs
Ascending-lower floor low [] all u = tt
Ascending-lower floor low (c ∷ cs) (b, all) (a, rest) = (b, rest)

-- The candidates of a scan that starts where the delivery state says come in the strict order of the
-- log, so none repeats, and each comes after the start of the generation and after the checkpoint.
pub scan_pages-Ascending :
    (row : DeliveryState) (floor : Point) (request : Request) (read_after : Option Point → Page)
    (pages : ℕ) (cursor : Option Point) (final : Scanned)
    → scan_start (loaded row) ≡ ok (cursor, floor)
    → scan_pages request read_after pages cursor (scanned_from floor) ≡ some final
    → Ascending row.start final.candidates
      × All (λ c. After c.point row.checkpoint) final.candidates
scan_pages-Ascending row floor request read_after pages cursor final s e =
    let o =
      scan_pages-Ordered floor request read_after pages cursor (scanned_from floor) final
        (record { ascending = tt; open_end = λ c a. (a, tt) }) e in
    let same = scan_start-later_than row cursor floor s in
    let all =
      All-weaken (λ c. After c.point (some floor))
        (λ c. After c.point (some row.start) × After c.point row.checkpoint) final.candidates
        (λ c a. After-later_than c.point row.start row.checkpoint (rw same a))
        (Ascending-All floor final.candidates o.ascending) in
    (
      Ascending-lower floor row.start final.candidates
          (All-weaken (λ c. After c.point (some row.start) × After c.point row.checkpoint)
            (λ c. After c.point (some row.start)) final.candidates (λ c h. h.0) all)
          o.ascending,
      All-weaken (λ c. After c.point (some row.start) × After c.point row.checkpoint)
          (λ c. After c.point row.checkpoint) final.candidates (λ c h. h.1) all,
    )
