-- ===== src/Wake.antt =====
-- Whether a seat can be woken (src/wake-path-health.ts, and `codexWakePathHealthy` of
-- src/codex-app-wake.ts). An answer is none where the source says null; what the probes of the
-- agents answer is given.
pub mod Bridge
pub mod Thread
pub mod Health
mod Tests
use borg_mcp_client.Prelude.{
  ℕ, Bool, true, false, not, ◌&&◌, ◌||◌, Option, none, some, ltb, is_some, if◌then◌else◌,
}
use borg_mcp_client.Text.{Text}

pub data AgentKind : Type 0 where
  claude codex opencode : AgentKind

pub record OpenCodeState : Type 0 where
  pub connected : Bool
  pub failed : ℕ
  pub delivered_unconfirmed : ℕ
  pub queued : ℕ
  pub retried : ℕ
  pub session_id : Option Text
  pub last_failure_code : Option Text

pub record CodexState : Type 0 where
  pub retry_drain_active : Bool
  pub deferred_entry_count : ℕ
  pub delivery_deferred : Bool

abbrev pub session_health : Option Text → Option Text → Option Bool
session_health (some id) failure = some true
session_health none none = none
session_health none (some code) = some false

unfoldable pub open_code_wake_path_healthy : OpenCodeState → Option Bool
open_code_wake_path_healthy state =
    if not state.connected
    then some false
    else if ltb 0 state.failed || ltb 0 state.delivered_unconfirmed
    then some false
    else if ltb 0 state.queued || ltb 0 state.retried
    then none
    else session_health state.session_id state.last_failure_code

unfoldable pub codex_wake_path_healthy : Option Bool → CodexState → Option Bool
codex_wake_path_healthy (some false) state = some false
codex_wake_path_healthy none state = none
codex_wake_path_healthy (some true) state =
    if state.retry_drain_active || ltb 0 state.deferred_entry_count || state.delivery_deferred
    then none
    else some true

-- what the probes answer, of which the agent's kind chooses one
pub record Probes : Type 0 where
  pub claude_monitor : Option Bool
  pub codex_armed : Option Bool
  pub codex_delivery : CodexState
  pub open_code : OpenCodeState

pub record Snapshot : Type 0 where
  pub agent_kind : AgentKind
  pub healthy : Option Bool
  pub open_code_state : Option OpenCodeState
  pub codex_state : Option CodexState

abbrev pub snapshot : AgentKind → Probes → Snapshot
snapshot claude probes = record {
  agent_kind = claude;
  healthy = probes.claude_monitor;
  open_code_state = none;
  codex_state = none;
}
snapshot codex probes = record {
  agent_kind = codex;
  healthy = codex_wake_path_healthy probes.codex_armed probes.codex_delivery;
  open_code_state = none;
  codex_state = some probes.codex_delivery;
}
snapshot opencode probes = record {
  agent_kind = opencode;
  healthy = open_code_wake_path_healthy probes.open_code;
  open_code_state = some probes.open_code;
  codex_state = none;
}

unfoldable pub inspect_wake_path : AgentKind → (active : Bool) → Probes → Snapshot
unfolding codex_wake_path_healthy open_code_wake_path_healthy
inspect_wake_path kind active probes =
    if active
    then snapshot kind probes
    else record { agent_kind = kind; healthy = none; open_code_state = none; codex_state = none }
