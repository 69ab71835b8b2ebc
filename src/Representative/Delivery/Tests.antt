-- ===== src/Representative/Delivery/Tests.antt =====
-- Runs of the delivery state of src/representative-delivery-store.ts, and the theorems at them.
use borg_mcp_client.Prelude.{◌≡◌, ◌⊎◌, refl, true, false, Option, none, some, List, [], ◌∷◌, arith}
use borg_mcp_client.Prelude.Result.{ok, err}
use borg_mcp_client.Text.{Text, ◌==◌}
use borg_mcp_client.Text.Order.{text_lt}
use borg_mcp_client.Representative.Point.{Point, compare_points}
use borg_mcp_client.Representative.Point.Order.{After, NotAfter}
use borg_mcp_client.Representative.Delivery.{
  StartKind, DeliveryState, unknown_entry, is_beyond, scan_start, widen_read_window, Delivered,
  deliver_forward, deliver,
}
use borg_mcp_client.Representative.Delivery.Fence.{Fenced}
use borg_mcp_client.Representative.Delivery.Deliver.{IsReturned, deliver-Fenced}
use borg_mcp_client.Representative.Delivery.Exact.{HasReached, deliver_exact}

runs : Unit {0}
unfolding deliver deliver_forward widen_read_window compare_points scan_start ◌==◌ text_lt
runs = tt

abbrev at : Text → Text → Point
at created_at id = record { id = id; created_at = created_at }

abbrev one : Point
one = at (1 ∷ []) (5 ∷ [])

abbrev two : Point
two = at (2 ∷ []) (4 ∷ [])

abbrev three : Point
three = at (3 ∷ []) (6 ∷ [])

abbrev row : Option Point → Option Point → List Point → DeliveryState
row reached fence returned = record {
  seat = [];
  start = at [] [];
  start_kind = StartKind.binding;
  checkpoint = reached;
  read_through = fence;
  returned = returned;
  wake_replies = one ∷ three ∷ [];
}

-- nothing read yet; entries two and three read; two delivered
abbrev new_row : DeliveryState
new_row = row none none []

abbrev read_row : DeliveryState
read_row = row (some one) (some three) (two ∷ three ∷ [])

widen_run :
    widen_read_window (some new_row) (one ∷ two ∷ [])
    ≡ ok (some (row none (some two) (one ∷ two ∷ [])))
unfolding runs
widen_run = refl

deliver_run :
    deliver (some read_row) two
    ≡ ok (record {
      checkpoint = some two;
      advanced = true;
      row = record (row (some two) (some three) (three ∷ [])) { wake_replies = three ∷ [] };
    })
unfolding runs
deliver_run = refl

deliver_unknown_run : deliver (some new_row) two ≡ err unknown_entry
unfolding runs
deliver_unknown_run = refl

scan_start_run : scan_start read_row ≡ ok (some one, one)
unfolding runs
scan_start_run = refl

read_row-Fenced : Fenced read_row
unfolding runs
read_row-Fenced = record { within = refl; undelivered = (refl, (refl, tt)); capped = omega arith }

deliver_exact_example :
    (After two read_row.checkpoint
      × IsReturned read_row two
      × ((d : Delivered) × (deliver (some read_row) two ≡ ok d) × HasReached read_row two d))
    ⊎ ((NotAfter two read_row.checkpoint
          × (deliver (some read_row) two
              ≡ ok (record { checkpoint = read_row.checkpoint; advanced = false; row = read_row })))
        ⊎ (After two read_row.checkpoint
            × ¬ (IsReturned read_row two)
            × (deliver (some read_row) two ≡ err unknown_entry)))
deliver_exact_example = deliver_exact read_row two read_row-Fenced

abbrev delivered : Delivered
delivered = record {
  checkpoint = some two;
  advanced = true;
  row = record (row (some two) (some three) (three ∷ [])) { wake_replies = three ∷ [] };
}

deliver-Fenced_example :
    Fenced delivered.row
    × (is_beyond (some one) (some two) ≡ false)
    × (delivered.row.checkpoint ≡ delivered.checkpoint)
deliver-Fenced_example = deliver-Fenced read_row two delivered read_row-Fenced deliver_run
