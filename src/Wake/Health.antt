-- ===== src/Wake/Health.antt =====
-- When a wake path counts as healthy (src/wake-path-health.ts).
use borg_mcp_client.Prelude.{◌≡◌, refl, Bool, true, false, Option, none, some, arith, is_some, ◌↔◌}
use borg_mcp_client.Text.{Text}
use borg_mcp_client.Wake.{
  AgentKind, claude, codex, opencode, OpenCodeState, CodexState, session_health,
  open_code_wake_path_healthy, codex_wake_path_healthy, Probes, snapshot, inspect_wake_path,
}

-- nothing waits, failed or is unconfirmed
abbrev pub IsSettled : OpenCodeState → Type 0
IsSettled s = (s.failed ≡ 0) × (s.delivered_unconfirmed ≡ 0) × (s.queued ≡ 0) × (s.retried ≡ 0)

abbrev pub IsQuiet : CodexState → Type 0
IsQuiet s =
    (s.retry_drain_active ≡ false) × (s.deferred_entry_count ≡ 0) × (s.delivery_deferred ≡ false)

-- what health means for each kind of agent
abbrev pub Ready : AgentKind → Probes → Type 0
Ready claude p = p.claude_monitor ≡ some true
Ready codex p = (p.codex_armed ≡ some true) × IsQuiet p.codex_delivery
Ready opencode p =
    (p.open_code.connected ≡ true) × IsSettled p.open_code × (is_some p.open_code.session_id ≡ true)

session_iff :
    (id failure : Option Text) → (session_health id failure ≡ some true) ↔ (is_some id ≡ true)
session_iff (some id) failure = (λ e. refl, λ e. refl)
session_iff none none = (λ e. cc, λ e. cc)
session_iff none (some code) = (λ e. cc, λ e. cc)

codex_iff :
    (armed : Option Bool) (s : CodexState)
    → (codex_wake_path_healthy armed s ≡ some true) ↔ ((armed ≡ some true) × IsQuiet s)
unfolding codex_wake_path_healthy
codex_iff none s = (λ e. cc, λ e. cc)
codex_iff (some false) s = (λ e. cc, λ e. cc)
codex_iff (some true) s = ground arith

opencode_iff :
    (s : OpenCodeState)
    → (open_code_wake_path_healthy s ≡ some true)
      ↔ ((s.connected ≡ true) × IsSettled s × (is_some s.session_id ≡ true))
unfolding open_code_wake_path_healthy
opencode_iff s = ground (arith, session_iff s.session_id s.last_failure_code)

snapshot_iff :
    (kind : AgentKind) (p : Probes) → ((snapshot kind p).healthy ≡ some true) ↔ Ready kind p
snapshot_iff claude p = (λ e. e, λ e. e)
snapshot_iff codex p = codex_iff p.codex_armed p.codex_delivery
snapshot_iff opencode p = opencode_iff p.open_code

-- A wake path is reported healthy exactly if there is an active seat and: for Claude, its monitor
-- is healthy; for Codex, the bridge is armed and no delivery is retried or deferred; for OpenCode,
-- it is connected to a session and no delivery is failed, unconfirmed, queued or retried.
pub inspect_wake_path-healthy_iff :
    (kind : AgentKind) (active : Bool) (p : Probes)
    → ((inspect_wake_path kind active p).healthy ≡ some true) ↔ ((active ≡ true) × Ready kind p)
unfolding inspect_wake_path
inspect_wake_path-healthy_iff kind false p = (λ e. cc, λ e. cc)
inspect_wake_path-healthy_iff kind true p =
    let (to, from) = snapshot_iff kind p in (λ e. (refl, to e), λ e. from e.1)
