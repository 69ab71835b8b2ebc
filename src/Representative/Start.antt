-- ===== src/Representative/Start.antt =====
-- `ensureDeliveryState` of src/representative-delivery-store.ts: how a binding generation gets a
-- delivery row with a resolved start. The table is an association list by generation; `current` is
-- the generation that a transaction finds bound to the worktree.
pub mod Resolved
mod Tests
use borg_mcp_client.Prelude.{
  Bool, true, false, not, ◌&&◌, Option, none, some, List, [], ◌∷◌, if◌then◌else◌,
}
use borg_mcp_client.Prelude.Result.{Result, ok, err}
use borg_mcp_client.Prelude.Lists.{any}
use borg_mcp_client.Text.{Text, lit, ◌==◌}
use borg_mcp_client.Representative.Point.{Point}
use borg_mcp_client.Representative.Delivery.{StartKind, DeliveryState, is_head_pending}

abbrev pub Rows : Type 0
Rows = List (Text × DeliveryState)

pub data StartError : Type 0 where
  stale_generation : StartError

-- What `serverHead` answered: `null` for an empty log.
pub data Head : Type 0 where
  position : Point → Head
  empty unbounded : Head

pub record EnsureContext : Type 0 where
  pub generation : Text
  pub seat : Text
  pub bound_at : Text

unfoldable pub find_row : Text → Rows → Option DeliveryState
find_row generation [] = none
find_row generation ((g, row) ∷ rows) =
    let rest = find_row generation rows in if g == generation then some row else rest

unfoldable pub update_row : Text → DeliveryState → Rows → Rows
update_row generation next [] = []
update_row generation next ((g, row) ∷ rows) =
    let rest = update_row generation next rows in
    if g == generation then (g, next) ∷ rows else (g, row) ∷ rest

unfoldable pub nil_uuid : Text
unfolding lit
nil_uuid = lit "00000000-0000-0000-0000-000000000000"

unfoldable pub binding_start : EnsureContext → Point
unfolding nil_uuid
binding_start ctx = record { id = nil_uuid; created_at = ctx.bound_at }

abbrev pub is_current : Text → Option Text → Bool
is_current generation none = false
is_current generation (some g) = g == generation

unfoldable pub inserted : EnsureContext → DeliveryState
unfolding binding_start
inserted ctx = record {
  seat = ctx.seat;
  start = binding_start ctx;
  start_kind = StartKind.binding;
  checkpoint = none;
  read_through = none;
  returned = [];
  wake_replies = [];
}

-- the first transaction, which tells whether the start is still to be resolved
abbrev pub prepared : EnsureContext → Rows → Option DeliveryState → Bool × Rows
prepared ctx rows none = (false, (ctx.generation, inserted ctx) ∷ rows)
prepared ctx rows (some row) = (is_head_pending row.start_kind, rows)

abbrev pub of_other : EnsureContext → (Text × DeliveryState) → Bool
of_other ctx row = row.1.seat == ctx.seat && not (row.0 == ctx.generation)

-- the row with its start resolved
unfoldable pub resolved : EnsureContext → Head → Bool → DeliveryState → DeliveryState
unfolding binding_start
resolved ctx (position point) false row = record row { start = point; start_kind = StartKind.head }
resolved ctx head history row = record row {
  start = binding_start ctx;
  start_kind = StartKind.binding;
}

-- the second transaction
abbrev pub resolve : EnsureContext → Head → Rows → Option DeliveryState → Rows
resolve ctx head rows none = rows
resolve ctx head rows (some row) =
    if is_head_pending row.start_kind
    then update_row ctx.generation (resolved ctx head (any (of_other ctx) rows) row) rows
    else rows

abbrev pub resolve_current : EnsureContext → Head → Option Text → Rows → Result StartError Rows
resolve_current ctx head current rows =
    if is_current ctx.generation current
    then ok (resolve ctx head rows (find_row ctx.generation rows))
    else err stale_generation

-- `current` and `later` are what the two transactions find bound; `between` is what others commit
-- while the head is read.
abbrev pub after_prepare :
    EnsureContext → Head → Option Text → (Rows → Rows) → Bool × Rows → Result StartError Rows
after_prepare ctx head later between (false, rows) = ok rows
after_prepare ctx head later between (true, rows) = resolve_current ctx head later (between rows)

unfoldable pub ensure_delivery_state :
    EnsureContext
    → Head
    → (current later : Option Text) → (Rows → Rows)
    → Rows
    → Result StartError Rows
unfolding find_row update_row inserted resolved
ensure_delivery_state ctx head current later between rows =
    if is_current ctx.generation current
    then after_prepare ctx head later between (prepared ctx rows (find_row ctx.generation rows))
    else err stale_generation
