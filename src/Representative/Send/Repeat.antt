-- ===== src/Representative/Send/Repeat.antt =====
-- Retrying a send that succeeded (src/representative-core.ts).
use borg_mcp_client.Prelude.{◌≡◌, refl, ap, ◌∙◌, true, some}
use borg_mcp_client.Prelude.Result.{ok}
use borg_mcp_client.Text.{◌==◌, eq_iff}
use borg_mcp_client.Representative.Ledger.{
  RequestRecord, Ledger, ReserveInput, already_sent, reserve, reserve_known, prune_settled, find_id,
  find_requested, is_sent,
}
use borg_mcp_client.Representative.Send.{SendResult, Call, after_reserve, send_once}

reserve-already_sent :
    (input : ReserveInput) (records : Ledger) (r : RequestRecord)
    → input.requested ≡ some input.candidate
    → find_id input.candidate records ≡ some r
    → r.payload_digest ≡ input.digest
    → is_sent r.state ≡ true
    → reserve input records ≡ ok (already_sent r.entry_id, records)
reserve-already_sent input records r q h d s =
    let found : find_requested input.requested records ≡ some r =
      ap (λ o. find_requested o records) q ∙ (unfold find_requested in h) in
    let same : (r.payload_digest == input.digest) ≡ true = (eq_iff _ _).1 d in
    unfold reserve in
    ap (λ o. reserve_known input o records) found ∙ (unfold reserve_known in rw same (rw s refl))

-- Calling again with the id and the content of a request that was sent returns its entry id as a
-- duplicate, whatever the live check or the append would answer, and posts nothing: the ledger is
-- only pruned.
pub send_once-repeat :
    (call : Call) (records : Ledger) (r : RequestRecord)
    → call.input.requested ≡ some call.input.candidate
    → find_id call.input.candidate records ≡ some r
    → r.payload_digest ≡ call.input.digest
    → is_sent r.state ≡ true
    → send_once call records ≡ (ok (SendResult.sent r.entry_id true true), prune_settled records)
send_once-repeat call records r q h d s =
    unfold send_once in
    ap (λ out. after_reserve call out records) (reserve-already_sent call.input records r q h d s)
    ∙ (unfold after_reserve in refl)
