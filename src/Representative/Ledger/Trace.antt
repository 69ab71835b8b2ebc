-- ===== src/Representative/Ledger/Trace.antt =====
-- The transactions of overlapping `sendOnce` calls, in any order: each runs under the lock of
-- `transactRequests` (src/representative-store.ts), which prunes and stores what the operation
-- leaves, and stores nothing when the operation throws.
use borg_mcp_client.Prelude.{
  ◌≡◌, refl, Option, none, some, List, [], ◌∷◌, ◌⊎◌, inl, inr, Option-cases,
}
use borg_mcp_client.Prelude.Result.{Result, ok, err}
use borg_mcp_client.Text.{Text}
use borg_mcp_client.Representative.Ledger.{
  RequestState, Ledger, ReserveInput, ReserveError, Reservation, Settlement, reserve, settle,
  release, prune_settled, find_id, reserve_again, new_record, settle_record, resettled_record,
  restore,
}
use borg_mcp_client.Representative.Ledger.Unique.{
  Unique, Unique-update_id, Unique-append, Unique-remove_id,
}
use borg_mcp_client.Representative.Ledger.Prune.{Unique-prune_settled}
use borg_mcp_client.Representative.Ledger.Shapes.{
  unchanged, again, fresh, reserve-Reserved, KeepsId-reserve_again, KeepsId-settle_record,
  request_id-resettled_record, find_id-of_requested, settle_missing, settle_present, removed,
  restored, release-Released,
}

-- `prior` of a release is what the call's own reservation returned.
pub data Tx : Type 0 where
  reserve_tx : ReserveInput → Tx
  settle_tx : ReserveInput → Settlement → Tx
  release_tx : Text → Option RequestState → Tx

-- what a reservation leaves in the store
unfoldable pub committed : Ledger → Result ReserveError (Reservation × Ledger) → Ledger
committed records (ok (reservation, next)) = prune_settled next
committed records (err e) = records

unfoldable pub transact : Tx → Ledger → Ledger
unfolding committed
transact (reserve_tx input) records = committed records (reserve input records)
transact (settle_tx input outcome) records = prune_settled (settle input outcome records).1
transact (release_tx id prior) records = prune_settled (release id prior records)

unfoldable pub transact_all : List Tx → Ledger → Ledger
transact_all [] records = records
transact_all (tx ∷ txs) records = transact_all txs (transact tx records)

-- What `randomUUID` is relied on for: a reservation that names no id of its own brings one that
-- the ledger does not hold. A named id is the candidate.
abbrev pub IsFresh : Ledger → Tx → Type 0
IsFresh records (reserve_tx input) =
    (input.requested ≡ some input.candidate) ⊎ (find_id input.candidate records ≡ none)
IsFresh records (settle_tx input outcome) = Unit
IsFresh records (release_tx id prior) = Unit

abbrev pub AllFresh : List Tx → Ledger → Type 0
AllFresh [] records = Unit
AllFresh (tx ∷ txs) records = IsFresh records tx × AllFresh txs (transact tx records)

pub Unique-reserve :
    (input : ReserveInput) (records : Ledger) (found : Reservation) (next : Ledger)
    → IsFresh records (reserve_tx input)
    → Unique records
    → reserve input records ≡ ok (found, next)
    → Unique next
Unique-reserve input records found next fr u h =
    elim (reserve-Reserved input records found next h) [
      | unchanged e ↦ rw e u
      | again r k d s e ↦ rw e (
          Unique-update_id r.request_id (reserve_again input.stamp) records
            (KeepsId-reserve_again input.stamp) u)
      | fresh k e ↦ rw e (
          Unique-append records (new_record input) u
            (unfold new_record in find_id-of_requested input records fr k))
    ]

pub Unique-settle :
    (input : ReserveInput) (outcome : Settlement) (records : Ledger)
    → Unique records
    → Unique (settle input outcome records).1
Unique-settle input outcome records u = elim (Option-cases (find_id input.candidate records)) [
  | inl gone ↦ rw (settle_missing input outcome records gone) (
      Unique-append records (resettled_record input outcome) u
        (rw (request_id-resettled_record input outcome) gone))
  | inr (r, here) ↦ rw (settle_present input outcome records r here) (
      Unique-update_id input.candidate (settle_record input.stamp outcome) records
        (KeepsId-settle_record input.stamp outcome) u)
]

pub Unique-release :
    (id : Text) (prior : Option RequestState) (records : Ledger)
    → Unique records
    → Unique (release id prior records)
Unique-release id prior records u = elim (release-Released id prior records) [
  | unchanged e ↦ rw e u
  | removed r h m p e ↦ rw e (Unique-remove_id id records u)
  | restored r state h p m e ↦ rw e (Unique-update_id id (restore state) records (λ r. refl) u)
]

-- Every transaction keeps the request ids of the ledger distinct, if a reservation that names no
-- id brings one that the ledger does not hold.
pub transact-Unique :
    (tx : Tx) (records : Ledger)
    → IsFresh records tx
    → Unique records
    → Unique (transact tx records)
unfolding transact
transact-Unique (reserve_tx input) records fr u = go (reserve input records) refl
  where
    go :
        (out : Result ReserveError (Reservation × Ledger))
        → reserve input records ≡ out
        → Unique (committed records out)
    go (ok (found, next)) e =
        Unique-prune_settled next (Unique-reserve input records found next fr u e)
    go (err x) e = u
transact-Unique (settle_tx input outcome) records fr u =
    Unique-prune_settled _ (Unique-settle input outcome records u)
transact-Unique (release_tx id prior) records fr u =
    Unique-prune_settled _ (Unique-release id prior records u)
