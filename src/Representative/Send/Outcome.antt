-- ===== src/Representative/Send/Outcome.antt =====
-- What each outcome of a send says of the backend and of the ledger (src/representative-core.ts).
use borg_mcp_client.Prelude.{
  ℕ, ◌≤◌, ◌<◌, ◌↔◌, leb, ltb, ◌≡◌, refl, true, false, ◌&&◌, Option, none, some, arith, Bool-cases,
  inl, inr,
}
use borg_mcp_client.Prelude.Result.{Result, ok, err}
use borg_mcp_client.Text.{Text, eq_iff}
use borg_mcp_client.Representative.Ledger.{
  RequestState, RequestRecord, Ledger, ReserveInput, ReserveError, Reservation, already_sent,
  reserved, reserve, reserve_known, find_requested, is_sent, prune_settled,
}
use borg_mcp_client.Representative.Ledger.Trace.{transact_all}
use borg_mcp_client.Representative.Binding.{BindingError}
use borg_mcp_client.Representative.Send.{
  AppendFailure, AppendOutcome, stored, failed, SendResult, sent, ambiguous, SendError,
  not_verified, send_rejected, classify_append_failure, Call, conclude, after_check, after_reserve,
  send_once,
}

-- What each outcome says of the call.
abbrev pub Explains : Call → Ledger → Result SendError SendResult → Type 0
Explains call records (ok (sent entry deduplicated true)) =
    (r : RequestRecord) × (find_requested call.input.requested records ≡ some r)
    × (r.payload_digest ≡ call.input.digest)
    × (is_sent r.state ≡ true)
    × (entry ≡ r.entry_id)
Explains call records (ok (sent entry deduplicated false)) =
    (e : Text) × (call.verified ≡ none) × (call.appended ≡ stored e deduplicated) × (entry ≡ some e)
Explains call records (ok (ambiguous cause)) =
    (f : AppendFailure) × (call.verified ≡ none)
    × (call.appended ≡ failed f)
    × (classify_append_failure f ≡ (false, cause))
Explains call records (err (send_rejected cause state)) =
    (f : AppendFailure) × (call.verified ≡ none)
    × (call.appended ≡ failed f)
    × (classify_append_failure f ≡ (true, cause))
Explains call records (err (not_verified e)) = call.verified ≡ some e
Explains call records (err (SendError.not_reserved e)) = reserve call.input records ≡ err e

conclude-Explains :
    (call : Call) (start records : Ledger) (appended : AppendOutcome)
    → call.verified ≡ none
    → call.appended ≡ appended
    → Explains call start (conclude call appended records).0
unfolding conclude
conclude-Explains call start records (stored e d) v a = (e, v, a, refl)
conclude-Explains call start records (failed f) v a =
    elim (Bool-cases (classify_append_failure f).0) [
      | inl definite ↦ rw definite (f, v, a, λ i. (definite i, (classify_append_failure f).1))
      | inr open' ↦ rw open' (f, v, a, λ i. (open' i, (classify_append_failure f).1))
    ]

after_check-Explains :
    (call : Call) (prior : Option RequestState) (verified : Option BindingError)
    (start records : Ledger)
    → call.verified ≡ verified
    → Explains call start (after_check call prior verified records).0
unfolding after_check
after_check-Explains call prior (some e) start records v = v
after_check-Explains call prior none start records v =
    conclude-Explains call start (transact_all call.during_append records) call.appended v refl

reserve_known-already_sent :
    (input : ReserveInput) (known : Option RequestRecord) (records next : Ledger)
    (entry : Option Text)
    → reserve_known input known records ≡ ok (already_sent entry, next)
    → (r : RequestRecord) × (known ≡ some r)
      × (r.payload_digest ≡ input.digest)
      × (is_sent r.state ≡ true)
      × (entry ≡ r.entry_id)
unfolding reserve_known
reserve_known-already_sent input none records next entry h = ground (arith, h)
reserve_known-already_sent input (some r) records next entry h =
    (r, refl, ground (arith, eq_iff r.payload_digest input.digest), ground arith, ground arith)

after_reserve-Explains :
    (call : Call) (out : Result ReserveError (Reservation × Ledger)) (records : Ledger)
    → reserve call.input records ≡ out
    → Explains call records (after_reserve call out records).0
unfolding after_reserve
after_reserve-Explains call (err e) records h = h
after_reserve-Explains call (ok (already_sent entry, next)) records h =
    reserve_known-already_sent call.input (find_requested call.input.requested records) records next
      entry (unfold reserve in h)
after_reserve-Explains call (ok (reserved prior, next)) records h =
    after_check-Explains call prior call.verified records
      (transact_all call.during_check (prune_settled next)) refl

-- A call reports `sent` only if the ledger already held that request as sent, or the live check
-- passed and the append returned the entry; an unknown outcome only after a failed append that is
-- no definite refusal; a rejection only after a definite one; a failed check only if the check
-- failed; and a refused reservation only if the reservation was refused.
pub send_once-Explains :
    (call : Call) (records : Ledger) → Explains call records (send_once call records).0
unfolding send_once
send_once-Explains call records =
    after_reserve-Explains call (reserve call.input records) records refl

-- Only a typed refusal counts as definite: a rejected credential, an evicted drone, a deleted cube,
-- or an HTTP status from 400 to 499.
pub data IsRefusal : AppendFailure → Type 0 where
  session_rejected : IsRefusal AppendFailure.session_rejected
  session_revoked : IsRefusal AppendFailure.session_revoked
  credential_rejected : IsRefusal AppendFailure.credential_rejected
  drone_evicted : IsRefusal AppendFailure.drone_evicted
  cube_deleted : IsRefusal AppendFailure.cube_deleted
  client_error :
      {status : ℕ} {c : Option Text}
      → 400 ≤ status
      → status < 500
      → IsRefusal (AppendFailure.http status c)

-- A failed append is classified as a definite refusal exactly when it is one of those.
pub classify_append_failure-definite_iff :
    (f : AppendFailure) → ((classify_append_failure f).0 ≡ true) ↔ IsRefusal f
unfolding classify_append_failure
classify_append_failure-definite_iff AppendFailure.session_rejected =
    (λ h. session_rejected, λ r. refl)
classify_append_failure-definite_iff AppendFailure.session_revoked =
    (λ h. session_revoked, λ r. refl)
classify_append_failure-definite_iff AppendFailure.credential_rejected =
    (λ h. credential_rejected, λ r. refl)
classify_append_failure-definite_iff AppendFailure.drone_evicted = (λ h. drone_evicted, λ r. refl)
classify_append_failure-definite_iff AppendFailure.cube_deleted = (λ h. cube_deleted, λ r. refl)
classify_append_failure-definite_iff (AppendFailure.http status c) =
    (λ h. client_error (ground arith) (ground arith), λ r. http_refusal r)
  where
    http_refusal :
        IsRefusal (AppendFailure.http status c) → (leb 400 status && ltb status 500) ≡ true
    http_refusal (client_error h k) = ground arith
classify_append_failure-definite_iff AppendFailure.unreachable = (λ h. cc, λ r. elim r [ ])
classify_append_failure-definite_iff AppendFailure.protocol_mismatch = (λ h. cc, λ r. elim r [ ])
classify_append_failure-definite_iff AppendFailure.protocol_contract = (λ h. cc, λ r. elim r [ ])
classify_append_failure-definite_iff AppendFailure.trust = (λ h. cc, λ r. elim r [ ])
classify_append_failure-definite_iff AppendFailure.other_server_error = (λ h. cc, λ r. elim r [ ])
classify_append_failure-definite_iff AppendFailure.unrecognised = (λ h. cc, λ r. elim r [ ])
