-- ===== src/Representative/Ledger/Refusal.antt =====
-- A request whose content may have been stored already is refused (src/representative-core.ts).
use borg_mcp_client.Prelude.{
  ◌≡◌, refl, sym, ap, ◌∙◌, true, false, not, ◌&&◌, none, some, List, [], ◌∷◌, arith, inl, inr,
  Bool-cases,
}
use borg_mcp_client.Prelude.Result.{err}
use borg_mcp_client.Text.{Text, ◌==◌, eq_iff, eq_refl}
use borg_mcp_client.Representative.Ledger.{
  RequestRecord, Ledger, ReserveInput, ambiguous_send_unresolved, as_ambiguous, reserve, settle,
  find_id, find_requested, settle_record, is_sent, is_unresolved, find_unresolved, reserve_known,
  reserve_unless_blocked,
}
use borg_mcp_client.Representative.Ledger.Find.{find_id-update_id}
use borg_mcp_client.Representative.Ledger.Unique.{Unique}
use borg_mcp_client.Representative.Ledger.Prune.{Unique-prune_settled}
use borg_mcp_client.Representative.Ledger.Shapes.{KeepsId-settle_record, settle_present}
use borg_mcp_client.Representative.Ledger.Trace.{
  Tx, settle_tx, transact, transact_all, AllFresh, Unique-settle, transact-Unique,
}
use borg_mcp_client.Representative.Ledger.Blocking.{
  Blocks, AllOther, prune-Blocks, transact_all-Blocks,
}

find_unresolved-of_Blocks :
    (id digest candidate : Text) (records : Ledger) (row : RequestRecord)
    → find_id id records ≡ some row
    → row.payload_digest ≡ digest
    → is_unresolved row.state ≡ true
    → (id == candidate) ≡ false
    → (other : RequestRecord) × (find_unresolved digest candidate records ≡ some other)
unfolding find_id find_unresolved
find_unresolved-of_Blocks id digest candidate [] row h d s n = cc
find_unresolved-of_Blocks id digest candidate (x ∷ rs) row h d s n =
    elim (Bool-cases
      (x.payload_digest == digest && is_unresolved x.state && not (x.request_id == candidate))) [
        | inl found ↦ (x, rw found refl)
        | inr missed ↦ rw missed (
            find_unresolved-of_Blocks id digest candidate rs row
              (ground (
                arith,
                missed,
                eq_iff x.payload_digest digest,
                eq_iff x.request_id id,
                eq_iff x.request_id candidate,
                eq_iff id candidate,
              ))
              d s n)
      ]

-- An unresolved request of the ledger with this content, under another id than the candidate's.
pub record IsTwin (digest candidate : Text) (records : Ledger) (other : RequestRecord)
    : Type 0 where
  pub held : find_id other.request_id records ≡ some other
  pub content : other.payload_digest ≡ digest
  pub unresolved : is_unresolved other.state ≡ true
  pub another : (other.request_id == candidate) ≡ false

find_unresolved-IsTwin :
    (digest candidate : Text) (records : Ledger) (other : RequestRecord)
    → Unique records
    → find_unresolved digest candidate records ≡ some other
    → IsTwin digest candidate records other
unfolding find_unresolved find_id
find_unresolved-IsTwin digest candidate [] other u h = cc
find_unresolved-IsTwin digest candidate (x ∷ rs) other (hx, u) h =
    elim (Bool-cases
      (x.payload_digest == digest && is_unresolved x.state && not (x.request_id == candidate))) [
        | inl found ↦
            let same : x ≡ other = ground arith in
            rw (sym same) (record {
              held = rw (eq_refl x.request_id) refl;
              content = ground (arith, eq_iff x.payload_digest digest);
              unresolved = ground arith;
              another = ground arith;
            })
        | inr missed ↦
            let twin = find_unresolved-IsTwin digest candidate rs other u (ground arith) in
            record {
              held = elim (Bool-cases (x.request_id == other.request_id)) [
                | inr differs ↦ rw differs twin.held
                | inl same ↦
                    let e : find_id other.request_id rs ≡ none =
                      rw ((eq_iff x.request_id other.request_id).0 same) at hx in
                    ground (arith, e, twin.held)
              ];
              content = twin.content;
              unresolved = twin.unresolved;
              another = twin.another;
            }
      ]

transact_all-Unique :
    (txs : List Tx) (records : Ledger)
    → AllFresh txs records
    → Unique records
    → Unique (transact_all txs records)
unfolding transact_all
transact_all-Unique [] records fr u = u
transact_all-Unique (tx ∷ txs) records (fr, frs) u =
    transact_all-Unique txs (transact tx records) frs (transact-Unique tx records fr u)

reserve-refused :
    (retry : ReserveInput) (records : Ledger) (other : RequestRecord)
    → retry.requested ≡ none
    → find_unresolved retry.digest retry.candidate records ≡ some other
    → reserve retry records ≡ err (ambiguous_send_unresolved other.request_id)
unfolding reserve
reserve-refused retry records other n found =
    ap (λ r. reserve_known retry (find_requested r records) records) n
    ∙ ap (λ o. reserve_unless_blocked retry none o records) found

-- In a ledger of distinct ids, after a send that is not known to be stored is settled as ambiguous, and
-- whatever transactions follow except the settlement of its id as sent, a new request with the same
-- content under another id is refused, and the refusal names a request of the ledger that has this
-- content, is unresolved, and is not the new one; reservations without an id bring fresh ids.
pub reserve-after_ambiguous :
    (input retry : ReserveInput) (txs : List Tx) (records : Ledger) (row : RequestRecord)
    → let after = transact (settle_tx input as_ambiguous) records in
      Unique records
      → find_id input.candidate records ≡ some row
      → row.payload_digest ≡ retry.digest
      → is_sent row.state ≡ false
      → AllFresh txs after
      → AllOther input.candidate txs
      → retry.requested ≡ none
      → (input.candidate == retry.candidate) ≡ false
      → (other : RequestRecord) × IsTwin retry.digest retry.candidate (transact_all txs after) other
        × (reserve retry (transact_all txs after)
            ≡ err (ambiguous_send_unresolved other.request_id))
reserve-after_ambiguous input retry txs records row u h d s fr o n ne =
    let settled = (settle input as_ambiguous records).1 in
    let marked : Blocks input.candidate retry.digest settled = record {
      row = settle_record input.stamp as_ambiguous row;
      here = rw (settle_present input as_ambiguous records row h) (
          rw
            (find_id-update_id input.candidate input.candidate
              (settle_record input.stamp as_ambiguous) records
              (KeepsId-settle_record input.stamp as_ambiguous))
            (rw (eq_refl input.candidate) (rw h refl)));
      content = unfold settle_record in ground (arith, d);
      unresolved = unfold settle_record in ground (arith, s);
      stored = unfold settle_record in ground (arith, s);
    } in
    let us = Unique-settle input as_ambiguous records u in
    let ua : Unique (transact (settle_tx input as_ambiguous) records) =
      unfold transact in Unique-prune_settled settled us in
    let b =
      transact_all-Blocks input.candidate retry.digest txs _ fr o ua
        (unfold transact in prune-Blocks input.candidate retry.digest settled marked us) in
    let (other, found) =
      find_unresolved-of_Blocks input.candidate retry.digest retry.candidate _ b.row b.here
        b.content b.unresolved ne in
    let twin =
      find_unresolved-IsTwin retry.digest retry.candidate _ other (transact_all-Unique txs _ fr ua)
        found in
    (other, twin, reserve-refused retry _ other n found)
