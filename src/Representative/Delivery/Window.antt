-- ===== src/Representative/Delivery/Window.antt =====
-- What `read` returned can be delivered (src/representative-core.ts and
-- src/representative-delivery-store.ts).
use borg_mcp_client.Prelude.{◌≡◌, false, Option, none, some}
use borg_mcp_client.Text.{Text}
use borg_mcp_client.Representative.Point.{Point, compare_points, is_gt}

-- the window does not reach past its last entry
abbrev pub IsWithin : Point → Option Point → Type 0
IsWithin q none = ⊥
IsWithin q (some end) = is_gt (compare_points q (some end)) ≡ false
