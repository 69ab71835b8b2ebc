-- ===== src/Representative/Delivery.antt =====
-- The delivered checkpoint and the read window of one binding generation
-- (src/representative-delivery-store.ts), and the transaction of `deliverRepresentativeReplies`
-- (src/representative-core.ts). A function takes the generation's stored row and returns the row
-- that the transaction leaves; a throw rolls it back.
pub mod Fence
pub mod Window
pub mod Deliver
pub mod Exact
mod Tests
use borg_mcp_client.Prelude.{
  ℕ, Bool, true, false, not, ◌&&◌, ◌||◌, Option, none, some, List, [], ◌∷◌, ◌++◌, if◌then◌else◌,
}
use borg_mcp_client.Prelude.Result.{Result, ok, err, ◌>>=◌}
use borg_mcp_client.Prelude.Lists.{filter, any, take_last, last}
use borg_mcp_client.Text.{Text, ◌==◌}
use borg_mcp_client.Text.Order.{text_lt}
use borg_mcp_client.Representative.Point.{Point, compare_points, is_gt, is_ge, later, sort_points}

pub data StartKind : Type 0 where
  checkpoint head binding head_pending : StartKind

-- A row of the tables `delivery`, `returned` and `wake_replies`.
pub record DeliveryState : Type 0 where
  pub seat : Text
  pub start : Point
  pub start_kind : StartKind
  pub checkpoint : Option Point
  pub read_through : Option Point
  pub returned : List Point
  pub wake_replies : List Point

pub data DeliveryError : Type 0 where
  start_unresolved fence_broken state_missing unknown_entry : DeliveryError

abbrev pub returned_cap : ℕ
returned_cap = 100

-- `loadDelivery` sorts the rows of the `returned` table.
abbrev pub loaded : DeliveryState → DeliveryState
loaded row = record row { returned = sort_points row.returned }

abbrev pub load_delivery : Option DeliveryState → Option DeliveryState
load_delivery none = none
load_delivery (some row) = some (loaded row)

abbrev pub is_head_pending : StartKind → Bool
is_head_pending StartKind.head_pending = true
is_head_pending _ = false

abbrev pub is_binding : StartKind → Bool
is_binding StartKind.binding = true
is_binding _ = false

-- `later(start, point)!`, where the first position is always there
abbrev pub later_than : Point → Option Point → Point
later_than start none = start
later_than start (some point) = if is_ge (compare_points start (some point)) then start else point

-- The server cursor of a scan (`none` is the log's start), and the floor that entries must exceed.
unfoldable pub scan_start : DeliveryState → Result DeliveryError (Option Point × Point)
scan_start state =
    if is_head_pending state.start_kind
    then err start_unresolved
    else ok (
      elim state.checkpoint [
        | some point ↦ some point
        | none ↦ if is_binding state.start_kind then none else some state.start
      ],
      later_than state.start state.checkpoint,
    )

abbrev pub point_at : Option Point → Text
point_at none = []
point_at (some p) = p.created_at

abbrev pub point_id : Option Point → Text
point_id none = []
point_id (some p) = p.id

-- the condition of the `DELETE FROM wake_replies`
abbrev pub is_passed : Option Point → Point → Bool
is_passed reached wake =
    text_lt wake.created_at (point_at reached)
    || (wake.created_at == point_at reached
        && (text_lt wake.id (point_id reached) || wake.id == point_id reached))

-- whether the checkpoint stands beyond the read fence
abbrev pub is_beyond : Option Point → Option Point → Bool
is_beyond none fence = false
is_beyond (some point) fence = is_gt (compare_points point fence)

abbrev pub without_passed : DeliveryState → DeliveryState
without_passed next = record next {
  wake_replies = filter (λ wake. not (is_passed next.checkpoint wake)) next.wake_replies;
}

unfoldable pub write : DeliveryState → Result DeliveryError DeliveryState
write next =
    if is_beyond next.checkpoint next.read_through
    then err fence_broken
    else ok (without_passed next)

-- keeps the first point of each id
unfoldable pub keep_first : List Text → List Point → List Point
keep_first seen [] = []
keep_first seen (p ∷ ps) =
    let rest = keep_first (p.id ∷ seen) ps in if any (λ id. id == p.id) seen then rest else p ∷ rest

unfoldable pub widened : DeliveryState → List Point → DeliveryState
unfolding keep_first sort_points later
widened before window = record before {
  read_through = later before.read_through (last window);
  returned = take_last returned_cap (
      sort_points (
        filter (λ entry. is_gt (compare_points entry before.checkpoint))
          (keep_first [] (before.returned ++ window))));
}

unfoldable pub widen_read_window :
    Option DeliveryState → List Point → Result DeliveryError (Option DeliveryState)
unfolding widened write
widen_read_window none window = ok none
widen_read_window (some row) [] = ok (some row)
widen_read_window (some row) (p ∷ window) = do
  let before = loaded row
  after ← write (widened before (p ∷ window))
  ok (some after)

unfoldable pub advanced : DeliveryState → Point → DeliveryState
unfolding later
advanced before to =
    let reached = later before.checkpoint (some to) in
    record before {
      checkpoint = reached;
      returned = filter (λ entry. is_gt (compare_points entry reached)) before.returned;
    }

-- Moves the checkpoint forward; the row before and the row after.
unfoldable pub advance_checkpoint :
    Option DeliveryState → Point → Result DeliveryError (DeliveryState × DeliveryState)
unfolding advanced write
advance_checkpoint none to = err state_missing
advance_checkpoint (some row) to = do
  let before = loaded row
  after ← write (advanced before to)
  ok (before, after)

-- the membership test of the full (id, created_at) tuple
abbrev pub is_point : Point → Point → Bool
is_point p q = q.id == p.id && q.created_at == p.created_at

-- `state.readThrough === null || comparePoints(point, state.readThrough) > 0`
abbrev pub is_past : Point → Option Point → Bool
is_past point fence = is_gt (compare_points point fence)

-- What deliver returns, with the row that it leaves: the checkpoint, and whether it moved.
pub record Delivered : Type 0 where
  pub checkpoint : Option Point
  pub advanced : Bool
  pub row : DeliveryState

abbrev pub advanced_past : Option Point → Option Point → Bool
advanced_past none before = false
advanced_past (some point) before = is_gt (compare_points point before)

unfoldable pub deliver_forward : DeliveryState → Point → Result DeliveryError Delivered
unfolding advance_checkpoint sort_points
deliver_forward row point =
    if not (any (is_point point) (sort_points row.returned)) || is_past point row.read_through
    then err unknown_entry
    else do
      moved ← advance_checkpoint (some row) point
      ok (record {
        checkpoint = moved.1.checkpoint;
        advanced = advanced_past moved.1.checkpoint moved.0.checkpoint;
        row = moved.1;
      })

-- the early return at or before the checkpoint
unfoldable pub deliver_at : Option Point → DeliveryState → Point → Result DeliveryError Delivered
deliver_at none row point = deliver_forward row point
deliver_at (some reached) row point =
    if is_gt (compare_points point (some reached))
    then deliver_forward row point
    else ok (record { checkpoint = some reached; advanced = false; row = row })

-- The last transaction of deliver, once the server has confirmed the entry.
unfoldable pub deliver : Option DeliveryState → Point → Result DeliveryError Delivered
unfolding deliver_at
deliver none point = err state_missing
deliver (some row) point = deliver_at row.checkpoint row point
