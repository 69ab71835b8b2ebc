-- ===== src/Wake/Bridge/Heartbeat.antt =====
-- The heartbeat of the wakes (`fireCodexHeartbeatTick` of src/codex-app-wake.ts).
use borg_mcp_client.Prelude.{
  ◌≡◌, ◌⊎◌, arith, ℕ, ◌-◌, Bool, true, false, not, ◌||◌, Option, none, some, ltb, if◌then◌else◌,
}
use borg_mcp_client.Prelude.Result.{Result, ok, err, ◌>>=◌}
use borg_mcp_client.Text.{Text}
use borg_mcp_client.Wake.Bridge.{Bridge, Answers, released, mark_delivered}

abbrev pub is_recent : Option ℕ → ℕ → ℕ → Bool
is_recent none now cadence = false
is_recent (some at) now cadence = ltb (now - at) cadence

unfoldable pub should_fire_heartbeat : Option ℕ → ℕ → ℕ → Bool
should_fire_heartbeat last_delivered_at now cadence = not (is_recent last_delivered_at now cadence)

-- What the heartbeat finds: `has_work` is the answer of its check of the unread entries.
abbrev pub beat_idle : Answers → Bridge → Bridge
unfolding mark_delivered
beat_idle a b = elim a.started [
  | err code ↦ record (a.others b) { delivery_deferred = true }
  | ok turn ↦ mark_delivered a.now (a.others b)
]

abbrev pub beat_target : Answers → Option Text → Bridge → Bridge
unfolding mark_delivered
beat_target a none b = record (a.others b) { delivery_deferred = true }
beat_target a (some thread) b = elim (a.connected >>= (λ connection. a.is_mid_turn)) [
  | err code ↦ record (a.others b) { delivery_deferred = true }
  | ok true ↦ record (a.others b) { delivery_deferred = true }
  | ok false ↦ beat_idle a b
]

abbrev pub beat_work : Answers → Result Text Bool → Bridge → Bridge
unfolding mark_delivered
beat_work a (err code) b = record (a.others b) { delivery_deferred = true }
beat_work a (ok false) b = record (a.others b) { delivery_deferred = false }
beat_work a (ok true) b = elim a.resolved [
  | err code ↦ record (a.others b) { delivery_deferred = true }
  | ok target ↦ beat_target a target b
]

abbrev pub beat_active : Answers → Result Text Bool → Bridge → Bridge
unfolding mark_delivered
beat_active a has_work b = elim a.active [
  | err code ↦ record (a.others b) { delivery_deferred = true }
  | ok false ↦ a.others b
  | ok true ↦ beat_work a has_work b
]

-- `fireCodexHeartbeatTick` while no earlier tick runs; `is_owner` is the lease.
unfoldable pub fire_codex_heartbeat_tick : ℕ → Bool → Answers → Result Text Bool → Bridge → Bridge
unfolding should_fire_heartbeat mark_delivered
fire_codex_heartbeat_tick cadence is_owner a has_work b =
    if not (should_fire_heartbeat b.last_delivered_at a.now cadence)
    then b
    else if not is_owner || b.inject_in_flight
    then b
    else released (beat_active a has_work (record b { inject_in_flight = true }))

-- After a tick that found unread work, the work is delivered or the health tells of it.
pub beat_work_told :
    (a : Answers) (b : Bridge)
    → ((beat_work a (ok true) b).delivery_deferred ≡ true)
      ⊎ ((beat_work a (ok true) b).last_delivered_at ≡ some a.now)
unfolding mark_delivered
beat_work_told a b = ground arith
