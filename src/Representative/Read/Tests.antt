-- ===== src/Representative/Read/Tests.antt =====
-- Runs of the read of src/representative-core.ts on a small log, and the theorems at them.
use borg_mcp_client.Prelude.{
  ℕ, ◌+◌, ◌<◌, ◌≡◌, refl, true, false, Option, none, some, [], ◌∷◌, arith,
}
use borg_mcp_client.Prelude.Result.{ok}
use borg_mcp_client.Prelude.Lists.{All, length, last}
use borg_mcp_client.Text.{Text, lit, ◌==◌, member}
use borg_mcp_client.Text.Order.{text_lt}
use borg_mcp_client.Representative.Binding.{RepresentativeBinding}
use borg_mcp_client.Representative.Point.{Point, compare_points}
use borg_mcp_client.Representative.Read
use borg_mcp_client.Representative.Read.{
  LogEntry, Page, Candidate, Scanned, Request, ReadResult, quoted_uuids, is_addressed, scan_entry,
  scan_entries, scan_pages, scanned_from, consider, result, fit, single_read, alone, conclude_read,
  assemble, server_head, point_of, read_replies,
}
use borg_mcp_client.Representative.Delivery.{DeliveryState, StartKind, loaded, scan_start}
use borg_mcp_client.Representative.Point.Order.{After}
use borg_mcp_client.Representative.Read.Scan.{Ascending, Advances}
use borg_mcp_client.Representative.Read.Floor.{scan_pages-Ascending}
use borg_mcp_client.Representative.Read.Fits.{Fits, assemble-Fits}
use borg_mcp_client.Representative.Read.Ends.{IsAnswer, read_replies_ends}
use borg_mcp_client.Representative.Read.Head.{Handed, EndsAt}

runs : Unit {0}
unfolding lit quoted_uuids ◌==◌ member text_lt compare_points is_addressed consider scan_entry
    scan_start scan_entries scan_pages result fit alone single_read conclude_read assemble
    server_head
runs = tt

abbrev bound : RepresentativeBinding
bound = record {
  cube_id = [];
  representative_drone_id = 8 ∷ [];
  representative_label = [];
  coordinator_drone_id = 9 ∷ [];
  coordinator_label = [];
}

abbrev request : Request
request = record {
  bound = bound;
  request_ids = [];
  include_broadcast = false;
  limit = 1;
  max_bytes = 4096;
}

-- an entry of a drone, direct to the representative
abbrev entry : ℕ → Text → LogEntry
entry at author = record {
  id = at ∷ [];
  drone_id = author;
  message = [];
  is_direct = true;
  created_at = at ∷ [];
  recipient_drone_ids = (8 ∷ []) ∷ [];
  documents = [];
}

abbrev first : LogEntry
first = entry 1 (7 ∷ [])

abbrev second : LogEntry
second = entry 2 (9 ∷ [])

abbrev third : LogEntry
third = entry 3 (9 ∷ [])

-- a log of three entries, served in two pages
abbrev serve : Option Point → Page
serve none = record { entries = first ∷ second ∷ []; has_more = true }
serve (some p) = record { entries = third ∷ []; has_more = false }

abbrev left : Option Point → ℕ
left none = 1
left (some p) = 0

abbrev floor : Point
floor = record { id = []; created_at = [] }

abbrev candidate : LogEntry → Candidate
candidate e = record {
  reply = Read.reply_to request e Read.Addressed.direct;
  point = point_of e;
  ignored_before = 1;
}

abbrev scanned : Scanned
scanned = record {
  candidates = candidate second ∷ candidate third ∷ [];
  ignored = 1;
  last_seen = point_of third;
}

scan_run : scan_pages request serve 2 none (scanned_from floor) ≡ some scanned
unfolding runs
scan_run = refl

-- the first entry was delivered: the scan goes on after it
abbrev resumed_row : DeliveryState
resumed_row = record {
  seat = [];
  start = floor;
  start_kind = StartKind.binding;
  checkpoint = some (point_of first);
  read_through = some (point_of first);
  returned = [];
  wake_replies = [];
}

abbrev rescanned : Scanned
rescanned = record {
  candidates = (record (candidate third) { ignored_before = 0 }) ∷ [];
  ignored = 0;
  last_seen = point_of third;
}

rescan_run :
    scan_pages request serve 1 (some (point_of first)) (scanned_from (point_of first))
    ≡ some rescanned
unfolding runs
rescan_run = refl

scan_start_run : scan_start (loaded resumed_row) ≡ ok (some (point_of first), point_of first)
unfolding runs
scan_start_run = refl

scan_pages-Ascending_example :
    Ascending floor rescanned.candidates
    × All (λ c. After c.point (some (point_of first))) rescanned.candidates
scan_pages-Ascending_example =
    scan_pages-Ascending resumed_row (point_of first) request serve 1 (some (point_of first))
      rescanned scan_start_run rescan_run

-- each reply takes 4000 bytes
abbrev size : ReadResult → ℕ
size final = 4000 + length final.replies

abbrev one_reply : ReadResult
one_reply = record {
  replies = Read.reply_to request second Read.Addressed.direct ∷ [];
  checkpoint = none;
  has_more = true;
  ignored_entries = 1;
}

assemble_run : assemble size request none scanned ≡ ok one_reply
unfolding runs
assemble_run = refl

assemble-Fits_example : Fits size 1 4096 scanned one_reply
assemble-Fits_example = assemble-Fits size request none scanned one_reply (omega arith) assemble_run

serve-Advances : Advances serve left
serve-Advances none tail e m = omega arith
serve-Advances (some p) tail e m = cc

serve_empty :
    (cursor : Option Point)
    → Handed serve cursor
    → last (serve cursor).entries ≡ none
    → cursor ≡ some (point_of third)
serve_empty none g e = cc
serve_empty (some p) g e = cc

serve_final :
    (cursor : Option Point) (tail : LogEntry)
    → Handed serve cursor
    → last (serve cursor).entries ≡ some tail
    → (serve cursor).has_more ≡ false
    → some (point_of tail) ≡ some (point_of third)
serve_final none tail g e m = cc
serve_final (some p) tail g e m = cc

serve-EndsAt : EndsAt serve (some (point_of third))
serve-EndsAt = record { empty = serve_empty; final = serve_final }

left_few : (cursor : Option Point) → left cursor < 2
left_few none = omega arith
left_few (some p) = omega arith

abbrev row : DeliveryState
row = record {
  seat = [];
  start = floor;
  start_kind = StartKind.binding;
  checkpoint = none;
  read_through = none;
  returned = [];
  wake_replies = [];
}

read_replies_ends_example : IsAnswer (read_replies size request serve 2 (some row) (some row))
read_replies_ends_example =
    read_replies_ends size request serve left 2 (some row) (some row) serve-Advances left_few

-- the quoted ids of a message, in lower case
quoted_run :
    quoted_uuids 0 (lit "re 0123ABCD-0000-4000-8000-00000000000f.")
    ≡ lit "0123abcd-0000-4000-8000-00000000000f" ∷ []
unfolding runs
quoted_run = refl
