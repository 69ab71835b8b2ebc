-- ===== src/Representative/Send/Tests.antt =====
-- Runs of `sendOnce` of src/representative-core.ts, and the theorems at them.
use borg_mcp_client.Prelude.{◌≡◌, ◌⊎◌, refl, Bool, true, false, Option, none, some, [], ◌∷◌}
use borg_mcp_client.Prelude.Result.{ok, err}
use borg_mcp_client.Text.{Text, ◌==◌}
use borg_mcp_client.Representative.Ledger.{
  RequestState, pending, RequestRecord, Ledger, ReserveInput, reserve, settle, release,
  prune_settled,
}
use borg_mcp_client.Representative.Ledger.Trace.{transact, transact_all}
use borg_mcp_client.Representative.Binding.{seat_unavailable}
use borg_mcp_client.Representative.Send.{
  AppendFailure, AppendOutcome, stored, failed, SendResult, ambiguous, not_verified, send_rejected,
  CauseCode, classify_append_failure, Call, conclude, send_once,
}
use borg_mcp_client.Representative.Send.Ambiguous.{IsMarked, IsSent, conclude-ambiguous}
use borg_mcp_client.Representative.Send.Outcome.{Explains, send_once-Explains}
use borg_mcp_client.Representative.Send.Repeat.{send_once-repeat}

runs : Unit {0}
unfolding send_once reserve settle release prune_settled transact transact_all ◌==◌
runs = tt

abbrev request : ReserveInput
request = record {
  requested = none;
  candidate = 1 ∷ [];
  digest = 7 ∷ [];
  kind = [];
  authorization = [];
  stamp = [];
}

abbrev call : AppendOutcome → Call
call outcome = record {
  input = request;
  settled_at = 8 ∷ [];
  verified = none;
  appended = outcome;
  during_check = [];
  during_append = [];
}

abbrev row : RequestState → Option Text → Bool → RequestRecord
row state entry maybe_stored = record {
  request_id = 1 ∷ [];
  payload_digest = 7 ∷ [];
  kind = [];
  authorization = [];
  state = state;
  entry_id = entry;
  maybe_stored = maybe_stored;
  created_at = [];
  updated_at = 8 ∷ [];
}

sent_run : send_once (call (stored (9 ∷ []) false)) [] ≡ (
  ok (SendResult.sent (some (9 ∷ [])) false false),
  row RequestState.sent (some (9 ∷ [])) false ∷ [],
)
unfolding runs
sent_run = refl

rejected_run : send_once (call (failed (AppendFailure.http 404 none))) [] ≡ (
  err (send_rejected (CauseCode.http_status 404) RequestState.rejected),
  row RequestState.rejected none false ∷ [],
)
unfolding runs
rejected_run = refl

unknown_run :
    send_once (call (failed (AppendFailure.http 503 none))) []
    ≡ (ok (ambiguous (CauseCode.http_status 503)), row RequestState.ambiguous none true ∷ [])
unfolding runs
unknown_run = refl

unverified_run :
    send_once (record (call (stored [] false)) { verified = some seat_unavailable }) []
    ≡ (err (not_verified seat_unavailable), [])
unfolding runs
unverified_run = refl

send_once-Explains_example :
    Explains (call (stored (9 ∷ []) true)) [] (send_once (call (stored (9 ∷ []) true)) []).0
send_once-Explains_example = send_once-Explains (call (stored (9 ∷ []) true)) []

abbrev in_flight : Ledger
in_flight = row pending none false ∷ []

conclude-ambiguous_example :
    let after =
      conclude
        (call (failed AppendFailure.unreachable))
        (failed AppendFailure.unreachable)
        in_flight in
    (after.0 ≡ ok (ambiguous (classify_append_failure AppendFailure.unreachable).1))
    × (IsMarked (1 ∷ []) after.1 ⊎ IsSent (1 ∷ []) in_flight)
unfolding runs
conclude-ambiguous_example =
    conclude-ambiguous (call (failed AppendFailure.unreachable)) AppendFailure.unreachable in_flight
      (refl, tt) refl

abbrev again : Call
again = record (call (failed AppendFailure.unreachable)) {
  input = record request { requested = some (1 ∷ []) };
}

send_once-repeat_example : send_once again (row RequestState.sent (some (9 ∷ [])) false ∷ []) ≡ (
  ok (SendResult.sent (some (9 ∷ [])) true true),
  prune_settled (row RequestState.sent (some (9 ∷ [])) false ∷ []),
)
unfolding runs
send_once-repeat_example =
    send_once-repeat again (row RequestState.sent (some (9 ∷ [])) false ∷ [])
      (row RequestState.sent (some (9 ∷ [])) false) refl refl refl refl
