-- ===== src/Representative/Ledger/Terminal.antt =====
-- `sent` is terminal in the request ledger (src/representative-core.ts).
use borg_mcp_client.Prelude.{
  ◌≡◌, refl, ap, ◌∙◌, true, false, Option, none, some, ◌⊎◌, arith, inl, inr, Bool-cases,
  Option-cases,
}
use borg_mcp_client.Prelude.Result.{Result, ok, err}
use borg_mcp_client.Text.{Text, ◌==◌, eq_iff}
use borg_mcp_client.Representative.Ledger.{
  RequestState, RequestRecord, Ledger, ReserveInput, ReserveError, Reservation, Settlement, reserve,
  settle, release, find_id, find_requested, reserve_again, new_record, settle_record,
  resettled_record, restore, is_sent, prune_settled,
}
use borg_mcp_client.Representative.Ledger.Find.{
  find_id-update_id, find_id-append, find_id-remove_id_ne, find_id-request_id,
}
use borg_mcp_client.Representative.Ledger.Prune.{IsExcess, find_id-prune_settled-IsExcess}
use borg_mcp_client.Representative.Ledger.Shapes.{
  unchanged, again, fresh, reserve-Reserved, KeepsId-reserve_again, KeepsId-settle_record,
  settle_missing, settle_present, removed, restored, release-Released,
}
use borg_mcp_client.Representative.Ledger.Trace.{
  Tx, reserve_tx, settle_tx, release_tx, transact, committed,
}

-- What a transaction leaves before it is pruned.
abbrev pub left_of : Ledger → Result ReserveError (Reservation × Ledger) → Ledger
left_of records (ok (reservation, next)) = next
left_of records (err e) = records

abbrev pub left_by : Tx → Ledger → Ledger
left_by (reserve_tx input) records = left_of records (reserve input records)
left_by (settle_tx input outcome) records = (settle input outcome records).1
left_by (release_tx id prior) records = release id prior records

-- A record that an operation finds by id and that is not `r` has another id.
find_id-ne :
    (id j : Text) (rs : Ledger) (r x : RequestRecord)
    → find_id j rs ≡ some r
    → find_id id rs ≡ some x
    → is_sent r.state ≡ true
    → is_sent x.state ≡ false
    → (id == j) ≡ false
find_id-ne id j rs r x h k s t = elim (Bool-cases (id == j)) [
  | inr other ↦ other
  | inl same ↦ let e : find_id j rs ≡ some x = rw ((eq_iff id j).0 same) at k in ground arith
]

find_requested-find_id :
    (requested : Option Text) (rs : Ledger) (r : RequestRecord)
    → find_requested requested rs ≡ some r
    → find_id r.request_id rs ≡ some r
find_requested-find_id none rs r h = unfold find_requested in cc
find_requested-find_id (some id) rs r h =
    let k : find_id id rs ≡ some r = unfold find_requested in h in
    ap (λ i. find_id i rs) (find_id-request_id id rs r k) ∙ k

module _ (j : Text) (records : Ledger) (r : RequestRecord) (here : find_id j records ≡ some r)
    (done : is_sent r.state ≡ true) where
  reserve-sent :
      (input : ReserveInput) (found : Reservation) (next : Ledger)
      → reserve input records ≡ ok (found, next)
      → find_id j next ≡ some r
  reserve-sent input found next h = elim (reserve-Reserved input records found next h) [
    | unchanged e ↦ rw e here
    | again x k d s e ↦
        let other =
          find_id-ne x.request_id j records r x here
            (find_requested-find_id input.requested records x k) done s in
        rw e (
          rw
            (find_id-update_id x.request_id j (reserve_again input.stamp) records
              (KeepsId-reserve_again input.stamp))
            (rw other here))
    | fresh k e ↦ rw e (rw (find_id-append j records (new_record input)) (rw here refl))
  ]

  settle-sent :
      (input : ReserveInput) (outcome : Settlement)
      → find_id j (settle input outcome records).1 ≡ some r
  settle-sent input outcome = elim (Option-cases (find_id input.candidate records)) [
    | inl gone ↦
        rw (settle_missing input outcome records gone)
          (rw (find_id-append j records (resettled_record input outcome)) (rw here refl))
    | inr (x, found) ↦ rw (settle_present input outcome records x found) (
        rw
          (find_id-update_id input.candidate j (settle_record input.stamp outcome) records
            (KeepsId-settle_record input.stamp outcome))
          (unfold settle_record in ground arith))
  ]

  release-sent :
      (id : Text) (prior : Option RequestState) → find_id j (release id prior records) ≡ some r
  release-sent id prior = elim (release-Released id prior records) [
    | unchanged e ↦ rw e here
    | removed x k m p e ↦ rw e (
        rw
          (find_id-remove_id_ne id j records
            (find_id-ne id j records r x here k done (ground arith)))
          here)
    | restored x state k p m e ↦
        let other = find_id-ne id j records r x here k done (ground arith) in
        rw e (rw (find_id-update_id id j (restore state) records (λ r. refl)) (rw other here))
  ]

  left_by-sent : (tx : Tx) → find_id j (left_by tx records) ≡ some r
  left_by-sent (reserve_tx input) = go (reserve input records) refl
    where
      go :
          (out : Result ReserveError (Reservation × Ledger))
          → reserve input records ≡ out
          → find_id j (left_of records out) ≡ some r
      go (ok (found, next)) e = reserve-sent input found next e
      go (err x) e = here
  left_by-sent (settle_tx input outcome) = settle-sent input outcome
  left_by-sent (release_tx id prior) = release-sent id prior

  pruned-sent :
      (left : Ledger)
      → find_id j left ≡ some r
      → (find_id j (prune_settled left) ≡ some r)
        ⊎ ((find_id j (prune_settled left) ≡ none) × IsExcess j left)
  pruned-sent left e = elim (find_id-prune_settled-IsExcess j left) [
    | inl same ↦ inl (same ∙ e)
    | inr lost ↦ inr lost
  ]

  transact-IsExcess :
      (tx : Tx)
      → (find_id j (transact tx records) ≡ some r)
        ⊎ ((find_id j (transact tx records) ≡ none) × IsExcess j (left_by tx records))
  unfolding transact
  transact-IsExcess (reserve_tx input) = go (reserve input records) refl
    where
      go :
          (out : Result ReserveError (Reservation × Ledger))
          → reserve input records ≡ out
          → (find_id j (committed records out) ≡ some r)
            ⊎ ((find_id j (committed records out) ≡ none) × IsExcess j (left_of records out))
      go (ok (found, next)) e = pruned-sent next (reserve-sent input found next e)
      go (err x) e = inl here
  transact-IsExcess (settle_tx input outcome) =
      pruned-sent (settle input outcome records).1 (settle-sent input outcome)
  transact-IsExcess (release_tx id prior) =
      pruned-sent (release id prior records) (release-sent id prior)

  -- Every transaction of every call leaves a record that is `sent` as it is, its entry id included.
  -- It is lost only to the pruning of what the transaction leaves, and then only if this holds more
  -- than 200 settled records and the record's id is among those of the first in excess of 200.
  pub transact-sent :
      (tx : Tx)
      → (find_id j (left_by tx records) ≡ some r)
        × ((find_id j (transact tx records) ≡ some r)
            ⊎ ((find_id j (transact tx records) ≡ none) × IsExcess j (left_by tx records)))
  transact-sent tx = (left_by-sent tx, transact-IsExcess tx)
