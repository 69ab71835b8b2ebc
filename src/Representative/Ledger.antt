-- ===== src/Representative/Ledger.antt =====
-- The request ledger of the human representative: the records and their pruning
-- (src/representative-store.ts), and the three transactions by which `sendOnce` of
-- src/representative-core.ts reserves a request id, settles it, or releases it. A transaction is a
-- function on the list of records; a throw inside it leaves the stored records as they were.
pub mod Find
pub mod Unique
pub mod Prune
pub mod Shapes
pub mod Trace
pub mod Bounds
pub mod Terminal
pub mod Blocking
pub mod Refusal
pub mod Outcomes
mod Tests
use borg_mcp_client.Prelude.{
  ℕ, ◌-◌, Bool, true, false, not, ◌&&◌, ◌||◌, Option, none, some, List, [], ◌∷◌, ◌++◌, map, leb,
  if◌then◌else◌,
}
use borg_mcp_client.Prelude.Result.{Result, ok, err}
use borg_mcp_client.Prelude.Lists.{length, take, filter, any}
use borg_mcp_client.Text.{Text, ◌==◌}

pub data RequestState : Type 0 where
  pending ambiguous sent rejected : RequestState

-- `maybe_stored` and `entry_id` are optional fields; an absent `maybe_stored` reads as false.
pub record RequestRecord : Type 0 where
  pub request_id : Text
  pub payload_digest : Text
  pub kind : Text
  pub authorization : Text
  pub state : RequestState
  pub entry_id : Option Text
  pub maybe_stored : Bool
  pub created_at : Text
  pub updated_at : Text

abbrev pub Ledger : Type 0
Ledger = List RequestRecord

abbrev pub is_unresolved : RequestState → Bool
is_unresolved pending = true
is_unresolved ambiguous = true
is_unresolved sent = false
is_unresolved rejected = false

abbrev pub is_pending : RequestState → Bool
is_pending pending = true
is_pending _ = false

abbrev pub is_ambiguous : RequestState → Bool
is_ambiguous ambiguous = true
is_ambiguous _ = false

abbrev pub is_sent : RequestState → Bool
is_sent sent = true
is_sent _ = false

abbrev pub is_rejected : RequestState → Bool
is_rejected rejected = true
is_rejected _ = false

-- `records.find((candidate) => candidate.requestId === id)`
unfoldable pub find_id : Text → Ledger → Option RequestRecord
find_id id [] = none
find_id id (r ∷ rs) = if r.request_id == id then some r else find_id id rs

-- an assignment to the fields of the record that `find_id` returns
unfoldable pub update_id : Text → (RequestRecord → RequestRecord) → Ledger → Ledger
update_id id f [] = []
update_id id f (r ∷ rs) =
    let rest = update_id id f rs in if r.request_id == id then f r ∷ rs else r ∷ rest

-- `records.splice(index, 1)` at the index of that record
unfoldable pub remove_id : Text → Ledger → Ledger
remove_id id [] = []
remove_id id (r ∷ rs) = let rest = remove_id id rs in if r.request_id == id then rs else r ∷ rest

-- What a call brings to the reservation. `requested` is `input.request_id`, and `candidate` is
-- that id, or a random one where it is absent.
pub record ReserveInput : Type 0 where
  pub requested : Option Text
  pub candidate : Text
  pub digest : Text
  pub kind : Text
  pub authorization : Text
  pub stamp : Text

pub data ReserveError : Type 0 where
  request_id_conflict : ReserveError
  ambiguous_send_unresolved : Text → ReserveError

pub data Reservation : Type 0 where
  already_sent : Option Text → Reservation
  reserved : Option RequestState → Reservation

unfoldable pub find_requested : Option Text → Ledger → Option RequestRecord
find_requested none records = none
find_requested (some id) records = find_id id records

-- a record of the same content that is unresolved under another id
unfoldable pub find_unresolved : Text → Text → Ledger → Option RequestRecord
find_unresolved digest candidate [] = none
find_unresolved digest candidate (r ∷ rs) =
    if r.payload_digest == digest && is_unresolved r.state && not (r.request_id == candidate)
    then some r
    else find_unresolved digest candidate rs

-- the assignments to a known record that is reserved again
unfoldable pub reserve_again : Text → RequestRecord → RequestRecord
reserve_again stamp r = record r {
  maybe_stored = is_unresolved r.state || r.maybe_stored;
  state = pending;
  updated_at = stamp;
}

unfoldable pub new_record : ReserveInput → RequestRecord
new_record input = record {
  request_id = input.candidate;
  payload_digest = input.digest;
  kind = input.kind;
  authorization = input.authorization;
  state = pending;
  entry_id = none;
  maybe_stored = false;
  created_at = input.stamp;
  updated_at = input.stamp;
}

-- The rest of the reservation, once no unresolved twin blocks it.
unfoldable pub reserve_free : ReserveInput → Option RequestRecord → Ledger → Reservation × Ledger
unfolding update_id reserve_again new_record
reserve_free input (some r) records =
    (reserved (some r.state), update_id r.request_id (reserve_again input.stamp) records)
reserve_free input none records = (reserved none, records ++ new_record input ∷ [])

unfoldable pub reserve_unless_blocked :
    ReserveInput
    → Option RequestRecord
    → Option RequestRecord
    → Ledger
    → Result ReserveError (Reservation × Ledger)
unfolding reserve_free
reserve_unless_blocked input known (some other) records =
    err (ambiguous_send_unresolved other.request_id)
reserve_unless_blocked input known none records = ok (reserve_free input known records)

unfoldable pub reserve_known :
    ReserveInput → Option RequestRecord → Ledger → Result ReserveError (Reservation × Ledger)
unfolding reserve_unless_blocked find_unresolved
reserve_known input none records =
    reserve_unless_blocked input none (find_unresolved input.digest input.candidate records) records
reserve_known input (some r) records =
    if not (r.payload_digest == input.digest)
    then err request_id_conflict
    else if is_sent r.state
    then ok (already_sent r.entry_id, records)
    else if is_rejected r.state
    then reserve_unless_blocked input (some r)
        (find_unresolved input.digest input.candidate records) records
    else ok (reserve_free input (some r) records)

-- The reservation transaction.
unfoldable pub reserve : ReserveInput → Ledger → Result ReserveError (Reservation × Ledger)
unfolding reserve_known find_requested find_id
reserve input records = reserve_known input (find_requested input.requested records) records

-- The settlement that an attempt asks for, with the entry id of a successful append.
pub data Settlement : Type 0 where
  as_sent : Option Text → Settlement
  as_ambiguous as_rejected : Settlement

abbrev pub settled_state : Settlement → RequestState
settled_state (as_sent entry) = sent
settled_state as_ambiguous = ambiguous
settled_state as_rejected = rejected

-- the assignments to the record, whose state is not yet `sent`
settle_open : Text → Settlement → RequestRecord → RequestRecord
settle_open stamp (as_sent entry) r = record r {
  state = sent;
  updated_at = stamp;
  entry_id = entry;
  maybe_stored = false;
}
settle_open stamp as_ambiguous r = record r {
  state = ambiguous;
  updated_at = stamp;
  maybe_stored = true;
}
settle_open stamp as_rejected r = record r {
  state = if r.maybe_stored then ambiguous else rejected;
  updated_at = stamp;
}

unfoldable pub settle_record : Text → Settlement → RequestRecord → RequestRecord
unfolding settle_open
settle_record stamp outcome r = if is_sent r.state then r else settle_open stamp outcome r

-- the record that a settlement adds where none is left
unfoldable pub resettled_record : ReserveInput → Settlement → RequestRecord
unfolding new_record settle_record
resettled_record input outcome =
    settle_record input.stamp outcome (record (new_record input) { state = settled_state outcome })

-- The settlement transaction. It returns the state that the record has afterwards.
unfoldable pub settle : ReserveInput → Settlement → Ledger → RequestState × Ledger
unfolding resettled_record settle_record find_id update_id
settle input outcome records = elim (find_id input.candidate records) [
  | none ↦ ((resettled_record input outcome).state, records ++ resettled_record input outcome ∷ [])
  | some r ↦ (
    (settle_record input.stamp outcome r).state,
    update_id input.candidate (settle_record input.stamp outcome) records,
  )
]

abbrev pub restore : RequestState → RequestRecord → RequestRecord
restore state r = record r { state = state }

-- what the release does with the pending record that it finds
release_pending : Text → Option RequestState → Bool → Ledger → Ledger
unfolding update_id remove_id
release_pending id (some ambiguous) true records = update_id id (restore ambiguous) records
release_pending id prior true records = records
release_pending id none false records = remove_id id records
release_pending id (some state) false records = update_id id (restore state) records

-- The release transaction after a failed verification; `prior` is the reservation's.
unfoldable pub release : Text → Option RequestState → Ledger → Ledger
unfolding release_pending find_id
release id prior records = elim (find_id id records) [
  | none ↦ records
  | some r ↦ if is_pending r.state then release_pending id prior r.maybe_stored records else records
]

abbrev pub settled_request_limit : ℕ
settled_request_limit = 200

abbrev pub is_settled : RequestRecord → Bool
is_settled r = is_sent r.state || is_rejected r.state

-- `drop.has(record.requestId)`
abbrev pub has : List Text → Text → Bool
has ids id = any (λ other. other == id) ids

abbrev pub dropped_ids : Ledger → List Text
dropped_ids settled =
    map (λ r. r.request_id) (take (length settled - settled_request_limit) settled)

unfoldable pub prune_settled : Ledger → Ledger
prune_settled records =
    let settled = filter is_settled records in
    if leb (length settled) settled_request_limit
    then records
    else filter (λ r. not (has (dropped_ids settled) r.request_id)) records
