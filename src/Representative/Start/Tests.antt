-- ===== src/Representative/Start/Tests.antt =====
-- Runs of `ensureDeliveryState` (src/representative-delivery-store.ts), and the theorem at one.
use borg_mcp_client.Prelude.{◌≡◌, refl, Option, some, none, [], ◌∷◌}
use borg_mcp_client.Prelude.Result.{ok, err}
use borg_mcp_client.Text.{Text, lit, ◌==◌}
use borg_mcp_client.Representative.Point.{Point}
use borg_mcp_client.Representative.Delivery.{StartKind, DeliveryState}
use borg_mcp_client.Representative.Start.{
  Rows, StartError, Head, EnsureContext, find_row, update_row, inserted, binding_start, resolved,
  ensure_delivery_state,
}
use borg_mcp_client.Representative.Start.Resolved.{Resolves, ensure_delivery_state-Resolves}

runs : Unit {0}
unfolding lit ◌==◌ find_row update_row inserted binding_start resolved ensure_delivery_state
runs = tt

abbrev ctx : EnsureContext
ctx = record { generation = 1 ∷ []; seat = 2 ∷ []; bound_at = 3 ∷ [] }

abbrev tail : Point
tail = record { id = 4 ∷ []; created_at = 5 ∷ [] }

abbrev row : Point → StartKind → DeliveryState
row start kind = record {
  seat = 2 ∷ [];
  start = start;
  start_kind = kind;
  checkpoint = none;
  read_through = none;
  returned = [];
  wake_replies = [];
}

abbrev imported : Rows
imported = (1 ∷ [], row tail StartKind.head_pending) ∷ []

abbrev current : Option Text
current = some (1 ∷ [])

abbrev others : Rows → Rows
others rows = rows

ensure_run :
    ensure_delivery_state ctx (Head.position tail) current current others imported
    ≡ ok ((1 ∷ [], row tail StartKind.head) ∷ [])
unfolding runs
ensure_run = refl

stale_run :
    ensure_delivery_state ctx Head.empty none current others imported
    ≡ err StartError.stale_generation
unfolding runs
stale_run = refl

ensure_delivery_state-Resolves_example : Resolves ctx ((1 ∷ [], row tail StartKind.head) ∷ [])
ensure_delivery_state-Resolves_example =
    ensure_delivery_state-Resolves ctx (Head.position tail) current current others imported
      ((1 ∷ [], row tail StartKind.head) ∷ []) (λ rows h. h) ensure_run
