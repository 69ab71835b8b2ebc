-- ===== src/Representative/Read.antt =====
-- How `readRepresentativeReplies` (src/representative-core.ts) scans the cube's log for entries
-- that the Coordinator addressed to the representative, and how it fits them into one result.
-- `read_after` is what the backend answers to a page request at a cursor, and `size` the number of
-- bytes of the serialized result. The constant fields of the result are left out.
pub mod Scan
pub mod Floor
pub mod Fits
pub mod Ends
pub mod Head
mod Tests
use borg_mcp_client.Prelude.{
  ℕ, zero, suc, ◌+◌, Bool, true, false, not, ◌&&◌, ◌||◌, Option, none, some, List, [], ◌∷◌, ◌++◌,
  map, ltb, leb, min, if◌then◌else◌,
}
use borg_mcp_client.Prelude.Result.{Result, ok, err}
use borg_mcp_client.Prelude.Lists.{length, take, get_elem?, find, any, last}
use borg_mcp_client.Text.{Text, ◌==◌, member}
use borg_mcp_client.Representative.Binding.{RepresentativeBinding}
use borg_mcp_client.Representative.Delivery.{
  DeliveryState, DeliveryError, state_missing, loaded, scan_start, widen_read_window,
}
use borg_mcp_client.Representative.Point.{Point, compare_points, is_gt}

-- A citation of a document; `details` are its other fields, which the reduction drops.
pub record Citation : Type 0 where
  pub id : Text
  pub details : Option Text

-- An entry of the log. Absent recipients and documents read as the empty list.
pub record LogEntry : Type 0 where
  pub id : Text
  pub drone_id : Text
  pub message : Text
  pub is_direct : Bool
  pub created_at : Text
  pub recipient_drone_ids : List Text
  pub documents : List Citation

pub record Page : Type 0 where
  pub entries : List LogEntry
  pub has_more : Bool

pub data Addressed : Type 0 where
  direct broadcast : Addressed

unfoldable pub is_addressed : RepresentativeBinding → LogEntry → Option Addressed
is_addressed bound entry =
    if not (entry.drone_id == bound.coordinator_drone_id)
    then none
    else if entry.is_direct
    then (if member bound.representative_drone_id entry.recipient_drone_ids
        then some direct
        else none)
    else some broadcast

-- `UUID_SCAN_RE`: the positions that are hexadecimal digits; the others are hyphens
abbrev pub is_between : ℕ → ℕ → ℕ → Bool
is_between low high c = leb low c && leb c high

abbrev pub is_hex : ℕ → Bool
is_hex c = is_between 0x30 0x39 c || is_between 0x41 0x46 c || is_between 0x61 0x66 c

abbrev pub digits : ℕ → List Bool → List Bool
digits zero rest = rest
digits (suc n) rest = true ∷ digits n rest

abbrev pub uuid_shape : List Bool
uuid_shape =
    digits 8 (false ∷ digits 4 (false ∷ digits 4 (false ∷ digits 4 (false ∷ digits 12 []))))

abbrev pub has_shape : List Bool → Text → Bool
has_shape [] s = true
has_shape (digit ∷ shape) [] = false
has_shape (digit ∷ shape) (c ∷ s) =
    (if digit then is_hex c else leb 0x2D c && leb c 0x2D) && has_shape shape s

-- `toLowerCase` on hexadecimal digits and hyphens
abbrev pub lower_hex : ℕ → ℕ
lower_hex c = if is_between 0x41 0x46 c then c + 0x20 else c

-- The UUIDs that a message quotes, from left to right, in lower case. The number counts the code
-- units of the last match that are still to be skipped.
unfoldable pub quoted_uuids : ℕ → Text → List Text
quoted_uuids skip [] = []
quoted_uuids (suc skip) (c ∷ s) = quoted_uuids skip s
quoted_uuids zero (c ∷ s) =
    let found = has_shape uuid_shape (c ∷ s) in
    let rest = quoted_uuids (if found then 35 else 0) s in
    if found then map lower_hex (take 36 (c ∷ s)) ∷ rest else rest

pub record Reply : Type 0 where
  pub entry_id : Text
  pub created_at : Text
  pub addressed : Addressed
  pub in_reply_to : Option Text
  pub message : Text
  pub documents : List Citation
  pub oversize : Bool
  pub documents_reduced : Bool

pub record Candidate : Type 0 where
  pub reply : Reply
  pub point : Point
  pub ignored_before : ℕ

-- What the scan has seen: the candidates, the number of ignored entries, the last position.
pub record Scanned : Type 0 where
  pub candidates : List Candidate
  pub ignored : ℕ
  pub last_seen : Point

-- A read: the bound seat, the ledger's request ids, and the validated input.
pub record Request : Type 0 where
  pub bound : RepresentativeBinding
  pub request_ids : List Text
  pub include_broadcast : Bool
  pub limit : ℕ
  pub max_bytes : ℕ

abbrev pub point_of : LogEntry → Point
point_of entry = record { id = entry.id; created_at = entry.created_at }

abbrev pub reply_to : Request → LogEntry → Addressed → Reply
reply_to request entry addressed = record {
  entry_id = entry.id;
  created_at = entry.created_at;
  addressed = addressed;
  in_reply_to = find (λ id. member id request.request_ids) (quoted_uuids 0 entry.message);
  message = entry.message;
  documents = entry.documents;
  oversize = false;
  documents_reduced = false;
}

-- the entries that count, which broadcasts do only on demand
abbrev pub wanted : Bool → Option Addressed → Option Addressed
wanted include_broadcast none = none
wanted include_broadcast (some direct) = some direct
wanted include_broadcast (some broadcast) = if include_broadcast then some broadcast else none

-- An entry after the last position: ignored, or a candidate; true ends the scan.
unfoldable pub consider : Request → LogEntry → Option Addressed → Scanned → Bool × Scanned
consider request entry none seen = (false, record seen { ignored = suc seen.ignored })
consider request entry (some addressed) seen =
    let next =
      seen.candidates
      ++ (record {
        reply = reply_to request entry addressed;
        point = point_of entry;
        ignored_before = seen.ignored;
      })
        ∷ [] in
    (ltb request.limit (length next), record seen { candidates = next })

unfoldable pub scan_entry : Request → LogEntry → Scanned → Bool × Scanned
unfolding consider is_addressed
scan_entry request entry seen =
    if is_gt (compare_points (point_of entry) (some seen.last_seen))
    then consider request entry
        (wanted request.include_broadcast (is_addressed request.bound entry))
        (record seen { last_seen = point_of entry })
    else (false, seen)

-- the rest of a loop, unless the scan has ended
abbrev pub unless_full : (Scanned → Bool × Scanned) → Bool × Scanned → Bool × Scanned
unless_full rest (true, seen) = (true, seen)
unless_full rest (false, seen) = rest seen

unfoldable pub scan_entries : Request → List LogEntry → Scanned → Bool × Scanned
unfolding scan_entry
scan_entries request [] seen = (false, seen)
scan_entries request (entry ∷ entries) seen =
    unless_full (scan_entries request entries) (scan_entry request entry seen)

-- The end of a page: the next one follows if there are more and this one has a last entry.
abbrev pub follow :
    (Option Point → Scanned → Option Scanned) → Option LogEntry → Bool → Scanned → Option Scanned
follow next_page (some tail) true seen = next_page (some (point_of tail)) seen
follow next_page tail has_more seen = some seen

abbrev pub end_page :
    (Option Point → Scanned → Option Scanned) → Page → Bool × Scanned → Option Scanned
end_page next_page page (true, seen) = some seen
end_page next_page page (false, seen) = follow next_page (last page.entries) page.has_more seen

-- The pages from a cursor on, at most as many as the number.
unfoldable pub scan_pages :
    Request → (Option Point → Page) → ℕ → Option Point → Scanned → Option Scanned
unfolding scan_entries
scan_pages request read_after zero cursor seen = none
scan_pages request read_after (suc pages) cursor seen =
    end_page (scan_pages request read_after pages) (read_after cursor)
      (scan_entries request (read_after cursor).entries seen)

pub record ReadResult : Type 0 where
  pub replies : List Reply
  pub checkpoint : Option Point
  pub has_more : Bool
  pub ignored_entries : ℕ

pub data ReadError : Type 0 where
  read_oversize : (measured bound : ℕ) → ReadError
  delivery : DeliveryError → ReadError
  pages_exhausted : ReadError

abbrev pub mark_first : Bool → List Reply → List Reply
mark_first true (reply ∷ replies) = (record reply { oversize = true }) ∷ replies
mark_first oversize replies = replies

abbrev pub ignored_at : Option Candidate → ℕ → ℕ
ignored_at none ignored = ignored
ignored_at (some c) ignored = c.ignored_before

abbrev pub reply_of : Candidate → Reply
reply_of c = c.reply

-- `result(count, oversize)`
unfoldable pub result : Option Point → Scanned → ℕ → Bool → ReadResult
result reached seen count oversize = record {
  replies = mark_first oversize (map reply_of (take count seen.candidates));
  checkpoint = reached;
  has_more = ltb count (length seen.candidates);
  ignored_entries = ignored_at (get_elem? seen.candidates count) seen.ignored;
}

-- The `while` loop; the first number is how far the count may still grow.
unfoldable pub fit : (ReadResult → ℕ) → ℕ → Option Point → Scanned → ℕ → ℕ → ℕ
fit size max_bytes reached seen zero count = count
fit size max_bytes reached seen (suc left) count =
    let rest = fit size max_bytes reached seen left (suc count) in
    if leb (size (result reached seen (suc count) false)) max_bytes then rest else count

abbrev pub envelope_floor : ℕ
envelope_floor = 16384

abbrev pub bound_of : ℕ → ℕ
bound_of max_bytes = if leb envelope_floor max_bytes then max_bytes else envelope_floor

abbrev pub id_only : Citation → Citation
id_only citation = record { id = citation.id; details = none }

abbrev pub has_documents : List Citation → Bool
has_documents [] = false
has_documents (citation ∷ citations) = true

abbrev pub reduce_first : List Reply → List Reply
reduce_first [] = []
reduce_first (reply ∷ replies) =
    (record reply { documents = map id_only reply.documents; documents_reduced = true }) ∷ []

abbrev pub cites : List Reply → Bool
cites [] = false
cites (reply ∷ replies) = has_documents reply.documents

-- The first reply alone, with its citations reduced to ids where that is needed.
unfoldable pub alone : (ReadResult → ℕ) → ℕ → ReadResult → ReadResult
alone size bound final =
    if cites final.replies && ltb bound (size final)
    then record final { replies = reduce_first final.replies }
    else final

abbrev pub checked : (ReadResult → ℕ) → ℕ → ReadResult → Result ReadError ReadResult
checked size bound final =
    if ltb bound (size final) then err (read_oversize (size final) bound) else ok final

-- `count === 0`: the first candidate alone, if there is one
unfoldable pub single_read :
    (ReadResult → ℕ) → ℕ → Option Point → Scanned → List Candidate → Result ReadError ReadResult
unfolding result alone
single_read size max_bytes reached seen [] = ok (result reached seen 0 false)
single_read size max_bytes reached seen (c ∷ cs) =
    checked size (bound_of max_bytes) (alone size (bound_of max_bytes) (result reached seen 1 true))

unfoldable pub conclude_read :
    (ReadResult → ℕ) → ℕ → Option Point → Scanned → ℕ → Result ReadError ReadResult
unfolding single_read
conclude_read size max_bytes reached seen (suc count) = ok (result reached seen (suc count) false)
conclude_read size max_bytes reached seen zero =
    single_read size max_bytes reached seen seen.candidates

-- What the read returns once the log is scanned.
unfoldable pub assemble :
    (ReadResult → ℕ) → Request → Option Point → Scanned → Result ReadError ReadResult
unfolding conclude_read fit
assemble size request reached seen =
    conclude_read size request.max_bytes reached seen
      (fit size request.max_bytes reached seen (min request.limit (length seen.candidates)) 0)

-- the entries that the second transaction records in the read window
abbrev pub point_in : Candidate → Point
point_in c = c.point

unfoldable pub window : Scanned → ReadResult → List Point
window seen final = map point_in (take (length final.replies) seen.candidates)

abbrev pub scanned_from : Point → Scanned
scanned_from floor = record { candidates = []; ignored = 0; last_seen = floor }

-- what the second transaction leaves, or throws
abbrev pub widened_answer :
    ReadResult
    → Result DeliveryError (Option DeliveryState)
    → Result ReadError (ReadResult × Option DeliveryState)
widened_answer final (err e) = err (delivery e)
widened_answer final (ok next) = ok (final, next)

abbrev pub after_assemble :
    Option DeliveryState
    → Scanned
    → Result ReadError ReadResult
    → Result ReadError (ReadResult × Option DeliveryState)
after_assemble row seen (err e) = err e
after_assemble row seen (ok final) =
    widened_answer final (widen_read_window row (window seen final))

unfoldable pub read_scanned :
    (ReadResult → ℕ)
    → Request
    → Option Point
    → Option DeliveryState
    → Option Scanned
    → Result ReadError (ReadResult × Option DeliveryState)
unfolding assemble window
read_scanned size request reached row none = err pages_exhausted
read_scanned size request reached row (some seen) =
    after_assemble row seen (assemble size request reached seen)

unfoldable pub read_from :
    (ReadResult → ℕ)
    → Request
    → (Option Point → Page)
    → ℕ
    → Option Point
    → Option DeliveryState
    → Result DeliveryError (Option Point × Point)
    → Result ReadError (ReadResult × Option DeliveryState)
unfolding scan_pages read_scanned
read_from size request read_after pages reached row (err e) = err (delivery e)
read_from size request read_after pages reached row (ok (cursor, floor)) =
    read_scanned size request reached row
      (scan_pages request read_after pages cursor (scanned_from floor))

-- The read, after the live check: `before` is the row that its first transaction finds, `row` the
-- one that its second finds; the number bounds the pages.
unfoldable pub read_replies :
    (ReadResult → ℕ)
    → Request
    → (Option Point → Page)
    → ℕ
    → Option DeliveryState
    → Option DeliveryState
    → Result ReadError (ReadResult × Option DeliveryState)
unfolding read_from
read_replies size request read_after pages none row = err (delivery state_missing)
read_replies size request read_after pages (some before) row =
    read_from size request read_after pages before.checkpoint row (scan_start (loaded before))

-- `serverHead`: the newest position, none for an empty log; an error where it is not reached in as
-- many pages as the number says, which the source sets to 40.
pub data HeadError : Type 0 where
  unbounded : HeadError

abbrev pub head_after :
    (LogEntry → Result HeadError (Option Point))
    → Option Point
    → Option LogEntry
    → Bool
    → Result HeadError (Option Point)
head_after rest cursor none has_more = ok cursor
head_after rest cursor (some tail) false = ok (some (point_of tail))
head_after rest cursor (some tail) true = rest tail

unfoldable pub server_head :
    (Option Point → Page) → ℕ → Option Point → Result HeadError (Option Point)
server_head read_after zero cursor = err unbounded
server_head read_after (suc pages) cursor =
    let page = read_after cursor in
    let rest = λ (tail : LogEntry). server_head read_after pages (some (point_of tail)) in
    head_after rest cursor (last page.entries) page.has_more

abbrev pub server_head_max_pages : ℕ
server_head_max_pages = 40
