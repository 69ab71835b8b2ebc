-- ===== src/Representative/Ledger/Shapes.antt =====
-- What the transactions of `sendOnce` (src/representative-core.ts) leave in the ledger, by cases.
use borg_mcp_client.Prelude.{
  ◌≡◌, refl, Bool, true, false, Option, none, some, [], ◌∷◌, ◌++◌, ◌⊎◌, arith, inl, inr, Bool-cases,
  Option-cases,
}
use borg_mcp_client.Prelude.Result.{ok}
use borg_mcp_client.Text.{Text, ◌==◌, eq_iff}
use borg_mcp_client.Representative.Ledger.{
  RequestState, ambiguous, release_pending, RequestRecord, Ledger, ReserveInput, Reservation,
  Settlement, reserve, settle, release, find_id, update_id, remove_id, reserve_again, new_record,
  settle_record, resettled_record, restore, is_pending, is_sent, find_requested, reserve_known,
}
use borg_mcp_client.Representative.Ledger.Find.{KeepsId}

-- What a reservation leaves: the records as they were, a known record taken again, or a new one.
pub data Reserved (input : ReserveInput) (records : Ledger) (next : Ledger) : Type 0 where
  unchanged : next ≡ records → Reserved input records next
  again :
      (r : RequestRecord)
      → find_requested input.requested records ≡ some r
      → r.payload_digest ≡ input.digest
      → is_sent r.state ≡ false
      → next ≡ update_id r.request_id (reserve_again input.stamp) records
      → Reserved input records next
  fresh :
      find_requested input.requested records ≡ none
      → next ≡ records ++ new_record input ∷ []
      → Reserved input records next

reserve_known-Reserved :
    (input : ReserveInput) (known : Option RequestRecord) (records : Ledger) (found : Reservation)
    (next : Ledger)
    → find_requested input.requested records ≡ known
    → reserve_known input known records ≡ ok (found, next)
    → Reserved input records next
unfolding reserve_known
reserve_known-Reserved input none records found next k h = fresh k (ground arith)
reserve_known-Reserved input (some r) records found next k h =
    elim (Bool-cases (r.payload_digest == input.digest)) [
      | inr differs ↦ ground (arith, differs)
      | inl same ↦ elim (Bool-cases (is_sent r.state)) [
        | inl done ↦ unchanged (ground arith)
        | inr unsettled ↦ again r k ((eq_iff _ _).0 same) unsettled (ground arith)
      ]
    ]

pub reserve-Reserved :
    (input : ReserveInput) (records : Ledger) (found : Reservation) (next : Ledger)
    → reserve input records ≡ ok (found, next)
    → Reserved input records next
unfolding reserve
reserve-Reserved input records found next h =
    reserve_known-Reserved input (find_requested input.requested records) records found next refl h

pub KeepsId-reserve_again : (stamp : Text) → KeepsId (reserve_again stamp)
unfolding reserve_again
KeepsId-reserve_again stamp r = refl

pub KeepsId-settle_record :
    (stamp : Text) (outcome : Settlement) → KeepsId (settle_record stamp outcome)
unfolding settle_record
KeepsId-settle_record stamp (Settlement.as_sent e) r = ground arith
KeepsId-settle_record stamp _ r = ground arith

pub request_id-resettled_record :
    (input : ReserveInput) (outcome : Settlement)
    → (resettled_record input outcome).request_id ≡ input.candidate
unfolding resettled_record
request_id-resettled_record input (Settlement.as_sent e) = refl
request_id-resettled_record input Settlement.as_ambiguous = refl
request_id-resettled_record input Settlement.as_rejected = refl

pub find_id-of_requested :
    (input : ReserveInput) (records : Ledger)
    → (input.requested ≡ some input.candidate) ⊎ (find_id input.candidate records ≡ none)
    → find_requested input.requested records ≡ none
    → find_id input.candidate records ≡ none
find_id-of_requested input records (inl e) h = unfold find_requested in rw e at h
find_id-of_requested input records (inr e) h = e

pub settle_missing :
    (input : ReserveInput) (outcome : Settlement) (records : Ledger)
    → find_id input.candidate records ≡ none
    → (settle input outcome records).1 ≡ records ++ resettled_record input outcome ∷ []
unfolding settle
settle_missing input outcome records h = rw (h, settle)

pub settle_present :
    (input : ReserveInput) (outcome : Settlement) (records : Ledger) (r : RequestRecord)
    → find_id input.candidate records ≡ some r
    → (settle input outcome records).1
      ≡ update_id input.candidate (settle_record input.stamp outcome) records
unfolding settle
settle_present input outcome records r h = rw (h, settle)

-- What a release leaves. A removal is of a record that no other attempt may have stored.
pub data Released (id : Text) (prior : Option RequestState) (records : Ledger) (next : Ledger)
    : Type 0 where
  unchanged : next ≡ records → Released id prior records next
  removed :
      (r : RequestRecord)
      → find_id id records ≡ some r
      → r.maybe_stored ≡ false
      → is_pending r.state ≡ true
      → next ≡ remove_id id records
      → Released id prior records next
  restored :
      (r : RequestRecord) (state : RequestState)
      → find_id id records ≡ some r
      → is_pending r.state ≡ true
      → (r.maybe_stored ≡ false) ⊎ (state ≡ ambiguous)
      → next ≡ update_id id (restore state) records
      → Released id prior records next

release_pending-Released :
    (id : Text) (prior : Option RequestState) (records : Ledger) (r : RequestRecord) (stored : Bool)
    → find_id id records ≡ some r
    → is_pending r.state ≡ true
    → r.maybe_stored ≡ stored
    → Released id prior records (release_pending id prior stored records)
unfolding release_pending
release_pending-Released id (some ambiguous) records r true h p m =
    restored r ambiguous h p (inr refl) refl
release_pending-Released id none records r false h p m = removed r h m p refl
release_pending-Released id (some state) records r false h p m = restored r state h p (inl m) refl
release_pending-Released id prior records r true h p m = unchanged refl

pub release-Released :
    (id : Text) (prior : Option RequestState) (records : Ledger)
    → Released id prior records (release id prior records)
unfolding release
release-Released id prior records = elim (Option-cases (find_id id records)) [
  | inl gone ↦ unchanged (rw (gone, release))
  | inr (r, here) ↦ elim (Bool-cases (is_pending r.state)) [
    | inl waiting ↦
        rw (here, release)
          (rw waiting
            (release_pending-Released id prior records r r.maybe_stored here waiting refl))
    | inr other ↦ unchanged (rw (here, release) (rw other))
  ]
]
