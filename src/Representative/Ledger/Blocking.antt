-- ===== src/Representative/Ledger/Blocking.antt =====
-- A send that may have been stored keeps blocking identical content (src/representative-core.ts).
use borg_mcp_client.Prelude.{
  ◌≡◌, refl, true, false, Option, some, List, [], ◌∷◌, ◌++◌, arith, inl, inr, Bool-cases,
  Option-cases,
}
use borg_mcp_client.Prelude.Result.{Result, ok, err}
use borg_mcp_client.Text.{Text, ◌==◌, eq_iff}
use borg_mcp_client.Representative.Ledger.{
  RequestState, RequestRecord, Ledger, ReserveInput, ReserveError, Reservation, Settlement, as_sent,
  as_ambiguous, as_rejected, reserve, settle, release, find_id, update_id, reserve_again,
  new_record, settle_record, resettled_record, restore, is_unresolved, prune_settled,
}
use borg_mcp_client.Representative.Ledger.Find.{
  KeepsId, find_id-update_id, find_id-append, find_id-remove_id_ne,
}
use borg_mcp_client.Representative.Ledger.Unique.{Unique}
use borg_mcp_client.Representative.Ledger.Prune.{find_id-prune_settled_unresolved}
use borg_mcp_client.Representative.Ledger.Shapes.{
  unchanged, again, fresh, reserve-Reserved, KeepsId-reserve_again, KeepsId-settle_record,
  settle_missing, settle_present, removed, restored, release-Released,
}
use borg_mcp_client.Representative.Ledger.Trace.{
  Tx, reserve_tx, settle_tx, release_tx, transact, transact_all, committed, AllFresh, IsFresh,
  Unique-reserve, Unique-settle, Unique-release, transact-Unique,
}

-- The ledger holds an unresolved record of this id and content that may have been stored.
pub record Blocks (id digest : Text) (records : Ledger) : Type 0 where
  pub row : RequestRecord
  pub here : find_id id records ≡ some row
  pub content : row.payload_digest ≡ digest
  pub unresolved : is_unresolved row.state ≡ true
  pub stored : row.maybe_stored ≡ true

-- Only a settlement of this id as sent resolves it.
abbrev pub IsOther : Text → Tx → Type 0
IsOther id (settle_tx input (as_sent entry)) = (input.candidate == id) ≡ false
IsOther id _ = Unit

module _ (id digest : Text) (records : Ledger) (b : Blocks id digest records) where
  update-Blocks :
      (j : Text) (f : RequestRecord → RequestRecord)
      → KeepsId f
      → ((j == id) ≡ true
          → ((f b.row).payload_digest ≡ digest)
            × (is_unresolved (f b.row).state ≡ true)
            × ((f b.row).maybe_stored ≡ true))
      → Blocks id digest (update_id j f records)
  update-Blocks j f k h = elim (Bool-cases (j == id)) [
    | inl same ↦ record {
      row = f b.row;
      here = rw (find_id-update_id j id f records k) (rw same (rw b.here refl));
      content = (h same).0;
      unresolved = (h same).1;
      stored = (h same).2;
    }
    | inr other ↦ record {
      row = b.row;
      here = rw (find_id-update_id j id f records k) (rw other b.here);
      content = b.content;
      unresolved = b.unresolved;
      stored = b.stored;
    }
  ]

  append-Blocks : (r : RequestRecord) → Blocks id digest (records ++ r ∷ [])
  append-Blocks r = record {
    row = b.row;
    here = rw (find_id-append id records r) (rw b.here refl);
    content = b.content;
    unresolved = b.unresolved;
    stored = b.stored;
  }

  pub prune-Blocks : Unique records → Blocks id digest (prune_settled records)
  prune-Blocks u = record {
    row = b.row;
    here = find_id-prune_settled_unresolved id records b.row u b.here b.unresolved;
    content = b.content;
    unresolved = b.unresolved;
    stored = b.stored;
  }

  reserve-Blocks :
      (input : ReserveInput) (found : Reservation) (next : Ledger)
      → reserve input records ≡ ok (found, next)
      → Blocks id digest next
  reserve-Blocks input found next h = elim (reserve-Reserved input records found next h) [
    | unchanged e ↦ rw e b
    | again r k d s e ↦ rw e (
        update-Blocks r.request_id (reserve_again input.stamp) (KeepsId-reserve_again input.stamp)
          (λ same. unfold reserve_again in (b.content, refl, ground (arith, b.unresolved))))
    | fresh k e ↦ rw e (append-Blocks (new_record input))
  ]

  settle-Blocks :
      (input : ReserveInput) (outcome : Settlement)
      → IsOther id (settle_tx input outcome)
      → Blocks id digest (settle input outcome records).1
  settle-Blocks input outcome o = elim (Option-cases (find_id input.candidate records)) [
    | inl gone ↦
        rw (settle_missing input outcome records gone)
          (append-Blocks (resettled_record input outcome))
    | inr (r, found) ↦ rw (settle_present input outcome records r found) (
        update-Blocks input.candidate (settle_record input.stamp outcome)
          (KeepsId-settle_record input.stamp outcome) (kept outcome o))
  ]
    where
      kept :
          (outcome : Settlement)
          → IsOther id (settle_tx input outcome)
          → (input.candidate == id) ≡ true
          → ((settle_record input.stamp outcome b.row).payload_digest ≡ digest)
            × (is_unresolved (settle_record input.stamp outcome b.row).state ≡ true)
            × ((settle_record input.stamp outcome b.row).maybe_stored ≡ true)
      kept (as_sent entry) o same = cc
      kept as_ambiguous o same = unfold settle_record in ground (arith, b.content, b.unresolved)
      kept as_rejected o same =
          unfold settle_record in ground (arith, b.content, b.unresolved, b.stored)

  release-Blocks :
      (j : Text) (prior : Option RequestState) → Blocks id digest (release j prior records)
  release-Blocks j prior = elim (release-Released j prior records) [
    | unchanged e ↦ rw e b
    | removed r k m p e ↦ rw e record {
      row = b.row;
      here = rw (find_id-remove_id_ne j id records (ne j r k m)) b.here;
      content = b.content;
      unresolved = b.unresolved;
      stored = b.stored;
    }
    | restored r state k p (inl m) e ↦
        rw e (
          update-Blocks j (restore state) (λ r. refl) (λ same. absurd (ground (arith, ne j r k m))))
    | restored r state k p (inr a) e ↦
        rw e
          (update-Blocks j (restore state) (λ r. refl) (λ same. (b.content, rw a refl, b.stored)))
  ]
    where
      ne :
          (j : Text) (r : RequestRecord)
          → find_id j records ≡ some r
          → r.maybe_stored ≡ false
          → (j == id) ≡ false
      ne j r k m = elim (Bool-cases (j == id)) [
        | inr other ↦ other
        | inl same ↦
            let e : find_id id records ≡ some r = rw ((eq_iff j id).0 same) at k in
            ground (arith, b.here, b.stored)
      ]

-- Any transaction but the settlement of this id as sent keeps the record, unresolved and marked.
transact-Blocks :
    (id digest : Text) (records : Ledger) (tx : Tx)
    → IsFresh records tx
    → IsOther id tx
    → Unique records
    → Blocks id digest records
    → Blocks id digest (transact tx records)
unfolding transact
transact-Blocks id digest records (reserve_tx input) fr o u b = go (reserve input records) refl
  where
    go :
        (out : Result ReserveError (Reservation × Ledger))
        → reserve input records ≡ out
        → Blocks id digest (committed records out)
    go (ok (found, next)) e =
        prune-Blocks id digest next (reserve-Blocks id digest records b input found next e)
          (Unique-reserve input records found next fr u e)
    go (err x) e = b
transact-Blocks id digest records (settle_tx input outcome) fr o u b =
    prune-Blocks id digest _ (settle-Blocks id digest records b input outcome o)
      (Unique-settle input outcome records u)
transact-Blocks id digest records (release_tx j prior) fr o u b =
    prune-Blocks id digest _ (release-Blocks id digest records b j prior)
      (Unique-release j prior records u)

abbrev pub AllOther : Text → List Tx → Type 0
AllOther id [] = Unit
AllOther id (tx ∷ txs) = IsOther id tx × AllOther id txs

-- Whatever transactions other calls run, in any order, a record that may have been stored stays
-- in the ledger, unresolved and marked, until its id is settled as sent.
pub transact_all-Blocks :
    (id digest : Text) (txs : List Tx) (records : Ledger)
    → AllFresh txs records
    → AllOther id txs
    → Unique records
    → Blocks id digest records
    → Blocks id digest (transact_all txs records)
unfolding transact_all
transact_all-Blocks id digest [] records fr o u b = b
transact_all-Blocks id digest (tx ∷ txs) records (fr, frs) (o, os) u b =
    transact_all-Blocks id digest txs (transact tx records) frs os (transact-Unique tx records fr u)
      (transact-Blocks id digest records tx fr o u b)
