-- ===== src/Representative/Send.antt =====
-- One `borg_representative_send` call (`sendOnce`, `classifyAppendFailure` of
-- src/representative-core.ts), from the reservation to the settlement. The input has been validated
-- and the state of the generation exists. What other calls commit while this one waits for the
-- live check and for the append enters as two sequences of transactions.
pub mod Ambiguous
pub mod Outcome
pub mod Repeat
mod Tests
use borg_mcp_client.Prelude.{
  ℕ, Bool, true, false, ◌&&◌, ◌||◌, Option, none, some, List, [], ◌∷◌, ◌≤◌, ◌<◌, leb, ltb,
  if◌then◌else◌,
}
use borg_mcp_client.Prelude.{◌==◌ as nat_eq}
use borg_mcp_client.Prelude.Lists.{length}
use borg_mcp_client.Prelude.Result.{Result, ok, err}
use borg_mcp_client.Text.{Text, lit}
use borg_mcp_client.Representative.Ledger.{
  RequestState, Ledger, ReserveInput, ReserveError, Reservation, already_sent, reserved, Settlement,
  as_sent, as_ambiguous, as_rejected, reserve, settle, prune_settled,
}
use borg_mcp_client.Representative.Ledger.Trace.{Tx, release_tx, transact, transact_all}
use borg_mcp_client.Representative.Binding.{BindingError}

-- The error that `append` threw, by its class and what the classification reads of it.
pub data AppendFailure : Type 0 where
  session_rejected session_revoked credential_rejected : AppendFailure
  other_server_error : AppendFailure
  drone_evicted cube_deleted : AppendFailure
  http : ℕ → Option Text → AppendFailure
  unreachable protocol_mismatch protocol_contract trust unrecognised : AppendFailure

-- The stable cause code: a code text, or `HTTP_` and the status.
pub data CauseCode : Type 0 where
  session_rejected session_revoked credential_rejected : CauseCode
  drone_evicted cube_deleted : CauseCode
  code : Text → CauseCode
  http_status : ℕ → CauseCode
  server_unreachable protocol_mismatch protocol_contract server_trust unknown : CauseCode

is_code_unit : ℕ → Bool
is_code_unit c = (leb b'A' c && leb c b'Z') || (leb b'0' c && leb c b'9') || nat_eq c b'_'

abbrev all_code_units : Text → Bool
all_code_units [] = true
all_code_units (c ∷ s) = is_code_unit c && all_code_units s

-- `/^[A-Z0-9_]{1,64}$/`
is_bounded_code : Text → Bool
unfolding is_code_unit
is_bounded_code s = leb 1 (length s) && leb (length s) 64 && all_code_units s

http_cause : ℕ → Option Text → CauseCode
unfolding is_bounded_code
http_cause status none = CauseCode.http_status status
http_cause status (some c) =
    if is_bounded_code c then CauseCode.code c else CauseCode.http_status status

-- whether the failure is a definite refusal, and its cause
unfoldable pub classify_append_failure : AppendFailure → Bool × CauseCode
unfolding http_cause
classify_append_failure AppendFailure.session_rejected = (true, CauseCode.session_rejected)
classify_append_failure AppendFailure.session_revoked = (true, CauseCode.session_revoked)
classify_append_failure AppendFailure.credential_rejected = (true, CauseCode.credential_rejected)
classify_append_failure AppendFailure.drone_evicted = (true, CauseCode.drone_evicted)
classify_append_failure AppendFailure.cube_deleted = (true, CauseCode.cube_deleted)
classify_append_failure (AppendFailure.http status c) =
    (leb 400 status && ltb status 500, http_cause status c)
classify_append_failure AppendFailure.unreachable = (false, CauseCode.server_unreachable)
classify_append_failure AppendFailure.protocol_mismatch = (false, CauseCode.protocol_mismatch)
classify_append_failure AppendFailure.protocol_contract = (false, CauseCode.protocol_contract)
classify_append_failure AppendFailure.trust = (false, CauseCode.server_trust)
classify_append_failure AppendFailure.other_server_error = (false, CauseCode.unknown)
classify_append_failure AppendFailure.unrecognised = (false, CauseCode.unknown)

-- What `append` returned or threw: an entry's id and whether the server recognised the post id.
pub data AppendOutcome : Type 0 where
  stored : Text → Bool → AppendOutcome
  failed : AppendFailure → AppendOutcome

-- What the call returns; the guidance, the warnings and the Coordinator's name are left out.
pub data SendResult : Type 0 where
  sent : Option Text → (deduplicated duplicate : Bool) → SendResult
  ambiguous : CauseCode → SendResult

pub data SendError : Type 0 where
  not_reserved : ReserveError → SendError
  not_verified : BindingError → SendError
  send_rejected : CauseCode → (recorded : RequestState) → SendError

-- A call: its request, the stamp of its settlement, what the live check and the append answered,
-- and what other calls committed before the check ended and before the append ended.
pub record Call : Type 0 where
  pub input : ReserveInput
  pub settled_at : Text
  pub verified : Option BindingError
  pub appended : AppendOutcome
  pub during_check : List Tx
  pub during_append : List Tx

abbrev pub settle_input : Call → ReserveInput
settle_input call = record {
  requested = call.input.requested;
  candidate = call.input.candidate;
  digest = call.input.digest;
  kind = call.input.kind;
  authorization = call.input.authorization;
  stamp = call.settled_at;
}

abbrev pub settle_with : Call → Settlement → Ledger → RequestState × Ledger
settle_with call outcome records =
    let (state, next) = settle (settle_input call) outcome records in (state, prune_settled next)

-- what follows the append
unfoldable pub conclude : Call → AppendOutcome → Ledger → Result SendError SendResult × Ledger
unfolding classify_append_failure
conclude call (stored entry deduplicated) records =
    (ok (sent (some entry) deduplicated false), (settle_with call (as_sent (some entry)) records).1)
conclude call (failed failure) records =
    let (definite, cause) = classify_append_failure failure in
    let (recorded, refused) = settle_with call as_rejected records in
    let (state, unresolved) = settle_with call as_ambiguous records in
    if definite
    then (err (send_rejected cause recorded), refused)
    else (ok (ambiguous cause), unresolved)

-- what follows the live check, whose failure releases the reservation
unfoldable pub after_check :
    Call → Option RequestState → Option BindingError → Ledger → Result SendError SendResult × Ledger
unfolding conclude
after_check call prior (some failure) records =
    (err (not_verified failure), transact (release_tx call.input.candidate prior) records)
after_check call prior none records =
    conclude call call.appended (transact_all call.during_append records)

unfoldable pub after_reserve :
    Call
    → Result ReserveError (Reservation × Ledger)
    → Ledger
    → Result SendError SendResult × Ledger
unfolding after_check
after_reserve call (err e) records = (err (not_reserved e), records)
after_reserve call (ok (already_sent entry, next)) records =
    (ok (sent entry true true), prune_settled next)
after_reserve call (ok (reserved prior, next)) records =
    after_check call prior call.verified (transact_all call.during_check (prune_settled next))

unfoldable pub send_once : Call → Ledger → Result SendError SendResult × Ledger
unfolding after_reserve
send_once call records = after_reserve call (reserve call.input records) records
