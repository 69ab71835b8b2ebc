-- ===== src/Wake/Tests.antt =====
-- A run of `inspectWakePath` (src/wake-path-health.ts), and the theorem at it.
use borg_mcp_client.Prelude.{◌≡◌, refl, true, false, some, none, [], ◌↔◌}
use borg_mcp_client.Wake.{
  AgentKind, Probes, inspect_wake_path, codex_wake_path_healthy, open_code_wake_path_healthy,
}
use borg_mcp_client.Wake.Health.{Ready, inspect_wake_path-healthy_iff}

abbrev probes : Probes
probes = record {
  claude_monitor = none;
  codex_armed = some true;
  codex_delivery = record {
    retry_drain_active = false;
    deferred_entry_count = 0;
    delivery_deferred = false;
  };
  open_code = record {
    connected = true;
    failed = 0;
    delivered_unconfirmed = 0;
    queued = 1;
    retried = 0;
    session_id = some [];
    last_failure_code = none;
  };
}

codex_run : (inspect_wake_path AgentKind.codex true probes).healthy ≡ some true
unfolding inspect_wake_path codex_wake_path_healthy
codex_run = refl

queued_run : (inspect_wake_path AgentKind.opencode true probes).healthy ≡ none
unfolding inspect_wake_path open_code_wake_path_healthy
queued_run = refl

inspect_wake_path-healthy_iff_example :
    ((inspect_wake_path AgentKind.codex true probes).healthy ≡ some true)
    ↔ ((true ≡ true) × Ready AgentKind.codex probes)
inspect_wake_path-healthy_iff_example = inspect_wake_path-healthy_iff AgentKind.codex true probes
