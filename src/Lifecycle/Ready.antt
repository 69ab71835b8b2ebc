-- ===== src/Lifecycle/Ready.antt =====
-- A ready announcement is suppressed exactly while it stands (src/lifecycle-log-guard.ts).
use borg_mcp_client.Prelude.{◌≡◌, ◌≢◌, ◌⊎◌, true, false, Option, none, some, arith}
use borg_mcp_client.Text.{Text, ◌==◌}
use borg_mcp_client.Lifecycle.{
  arrival, ready, Identity, unknown, StateEntry, signal_for_message, should_suppress, next_state,
}

-- After any message is logged, a ready message is suppressed if the logged one is the same ready
-- message; an arrival leaves it as it was; any other message opens the way for it again.
pub ready_after_log :
    (logged message now : Text) (entry : StateEntry) (by asking : Identity)
    → signal_for_message message ≡ some ready
    → let before = should_suppress message (some entry) asking in
      let after = should_suppress message (some (next_state logged (some entry) now by)) asking in
      (signal_for_message logged ≡ some ready → after.0 ≡ (logged == message))
      × (signal_for_message logged ≡ some arrival → after.0 ≡ before.0)
      × (signal_for_message logged ≡ none → after.0 ≡ false)
unfolding should_suppress next_state
ready_after_log logged message now entry by asking h =
    (λ k. ground arith, λ k. ground arith, λ k. ground arith)

-- Only an arrival of a known session, or a ready message, is ever suppressed.
pub suppressed_only :
    (message : Text) (entry : Option StateEntry) (identity : Identity)
    → (should_suppress message entry identity).0 ≡ true
    → ((signal_for_message message ≡ some arrival) × (identity ≢ unknown))
      ⊎ (signal_for_message message ≡ some ready)
unfolding should_suppress
suppressed_only message entry identity h = ground arith
