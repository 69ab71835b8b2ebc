-- ===== src/Representative/Ledger/Outcomes.antt =====
-- What one call of `sendOnce` (src/representative-core.ts) leaves in the ledger.
use borg_mcp_client.Prelude.{
  ◌≤◌, ◌≡◌, refl, ap, Bool, true, false, Option, none, some, [], ◌∷◌, ◌++◌, arith, if◌then◌else◌,
}
use borg_mcp_client.Prelude.Lists.{length, filter}
use borg_mcp_client.Prelude.Result.{ok}
use borg_mcp_client.Text.{Text, ◌==◌, eq_refl}
use borg_mcp_client.Representative.Ledger.{
  RequestState, pending, ambiguous, sent, RequestRecord, Ledger, ReserveInput, Reservation,
  Settlement, as_sent, as_ambiguous, as_rejected, reserve, settle, release, find_id, remove_id,
  reserve_known, find_requested, new_record, settle_record, is_settled, prune_settled,
  settled_request_limit, resettled_record, settled_state,
}
use borg_mcp_client.Representative.Ledger.Find.{apply_to, find_id-update_id, find_id-append}
use borg_mcp_client.Representative.Ledger.Shapes.{
  KeepsId-settle_record, settle_missing, settle_present, request_id-resettled_record,
}
use borg_mcp_client.Representative.Ledger.Trace.{reserve_tx, release_tx, transact, committed}

-- What an attempt makes of the state of an existing record: `sent` is terminal, and a definite
-- refusal does not hide an attempt that may be stored.
abbrev pub settles_to : RequestState → Bool → Settlement → RequestState
settles_to sent stored outcome = sent
settles_to state true as_rejected = ambiguous
settles_to state stored outcome = settled_state outcome

settles_to-settle_record :
    (stamp : Text) (outcome : Settlement) (r : RequestRecord)
    → (settle_record stamp outcome r).state ≡ settles_to r.state r.maybe_stored outcome
unfolding settle_record
settles_to-settle_record stamp (as_sent e) r = ground arith
settles_to-settle_record stamp as_ambiguous r = ground arith
settles_to-settle_record stamp as_rejected r = ground arith

-- A settlement gives an existing record the state of the table, returns that state, and leaves
-- every other record as it was.
pub settle_lem :
    (input : ReserveInput) (outcome : Settlement) (records : Ledger) (r : RequestRecord)
    → find_id input.candidate records ≡ some r
    → let next = settle input outcome records in
      (next.0 ≡ settles_to r.state r.maybe_stored outcome)
      × ((after : RequestRecord) × (find_id input.candidate next.1 ≡ some after)
          × (after.state ≡ next.0)
          × (after.payload_digest ≡ r.payload_digest))
      × ((j : Text) → (input.candidate == j) ≡ false → find_id j next.1 ≡ find_id j records)
unfolding settle_record
settle_lem input outcome records r h = (
  rw state (settles_to-settle_record input.stamp outcome r),
  (
    settle_record input.stamp outcome r,
    rw (view input.candidate) (rw (eq_refl input.candidate) (rw h refl)),
    rw state refl,
    digest outcome,
  ),
  λ j other. rw (view j) (rw other refl),
)
  where
    state : (settle input outcome records).0 ≡ (settle_record input.stamp outcome r).state
    state = unfold settle in rw (h, settle) refl

    view :
        (j : Text)
        → find_id j (settle input outcome records).1 ≡ (
            if input.candidate == j
            then apply_to (settle_record input.stamp outcome) (find_id j records)
            else find_id j records)
    view j = rw (settle_present input outcome records r h) (
        find_id-update_id input.candidate j (settle_record input.stamp outcome) records
          (KeepsId-settle_record input.stamp outcome))

    digest : (o : Settlement) → (settle_record input.stamp o r).payload_digest ≡ r.payload_digest
    digest (as_sent e) = ground arith
    digest as_ambiguous = ground arith
    digest as_rejected = ground arith

-- A settlement as sent that finds no record of its id adds one that is sent and holds no entry id,
-- whatever entry the server returned.
pub settle_missing_sent :
    (input : ReserveInput) (entry : Option Text) (records : Ledger)
    → find_id input.candidate records ≡ none
    → (after : RequestRecord) × (find_id input.candidate (settle input (as_sent entry) records).1
        ≡ some after)
      × (after.state ≡ sent)
      × (after.entry_id ≡ none)
settle_missing_sent input entry records h = (
  resettled_record input (as_sent entry),
  rw (settle_missing input (as_sent entry) records h) (
      rw (find_id-append input.candidate records (resettled_record input (as_sent entry))) (
        rw h (
          rw (request_id-resettled_record input (as_sent entry))
            (rw (eq_refl input.candidate) refl)))),
  unfold resettled_record in refl,
  unfold resettled_record in refl,
)

remove_id-append :
    (rs : Ledger) (r : RequestRecord)
    → find_id r.request_id rs ≡ none
    → remove_id r.request_id (rs ++ r ∷ []) ≡ rs
unfolding find_id remove_id
remove_id-append [] r h = rw (eq_refl r.request_id) refl
remove_id-append (x ∷ rs) r h = ground (arith, remove_id-append rs r)

pub filter-append_pending :
    (rs : Ledger) (r : RequestRecord)
    → r.state ≡ pending
    → filter is_settled (rs ++ r ∷ []) ≡ filter is_settled rs
filter-append_pending [] r h = ground arith
filter-append_pending (x ∷ rs) r h = ground (arith, filter-append_pending rs r h)

pub prune_settled-few :
    (rs : Ledger) → length (filter is_settled rs) ≤ settled_request_limit → prune_settled rs ≡ rs
unfolding prune_settled
prune_settled-few rs h = ground arith

release_new :
    (input : ReserveInput) (records : Ledger)
    → find_id input.candidate records ≡ none
    → release input.candidate none (records ++ new_record input ∷ []) ≡ records
unfolding release new_record
release_new input records h =
    let found : find_id input.candidate (records ++ new_record input ∷ [])
        ≡ some (new_record input) =
      rw (find_id-append input.candidate records (new_record input))
        (rw h (rw (eq_refl input.candidate) refl)) in
    rw (found, release) (remove_id-append records (new_record input) h)

pub reserve_new :
    (input : ReserveInput) (records next : Ledger) (found : Reservation)
    → input.requested ≡ none
    → reserve input records ≡ ok (found, next)
    → next ≡ records ++ new_record input ∷ []
reserve_new input records next found n e =
    let start : reserve input records ≡ reserve_known input none records =
      unfold reserve in ap (λ r. reserve_known input (find_requested r records) records) n in
    let e' : reserve_known input none records ≡ ok (found, next) = rw (← start) e in
    unfold reserve_known in ground (arith, e')

-- A new request whose live verification fails leaves the ledger as it was, if it held at most 200
-- settled records and no record of the new id.
pub release-reserve :
    (input : ReserveInput) (records next : Ledger) (found : Reservation)
    → input.requested ≡ none
    → find_id input.candidate records ≡ none
    → length (filter is_settled records) ≤ settled_request_limit
    → reserve input records ≡ ok (found, next)
    → transact (release_tx input.candidate none) (transact (reserve_tx input) records) ≡ records
unfolding transact
release-reserve input records next found n h few e =
    let made : next ≡ records ++ new_record input ∷ [] = reserve_new input records next found n e in
    let kept : prune_settled (records ++ new_record input ∷ []) ≡ records ++ new_record input ∷ [] =
      prune_settled-few _
        (rw (filter-append_pending records (new_record input) (unfold new_record in refl)) few) in
    rw (e, committed)
      (rw made (rw kept (rw (release_new input records h) (prune_settled-few records few))))
