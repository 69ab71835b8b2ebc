-- ===== src/Wake/Bridge.antt =====
-- How Codex is woken (src/codex-app-wake.ts, and the clocks of src/codex-wake-resolve.ts): a wake
-- for one entry, the retry drain that collects what could not be delivered, and the heartbeat. What
-- the client's own calls answer is given, a throw by its code; `others` is what the other paths
-- schedule while one waits. What is only reported (the last target and result) is left out.
pub mod Drain
pub mod Heartbeat
pub mod Grounds
pub mod Kept
pub mod Progress
pub mod Drained
pub mod Keys
mod Tests
use borg_mcp_client.Prelude.{
  ℕ, zero, suc, ◌+◌, ◌-◌, ◌*◌, Bool, true, false, not, ◌&&◌, ◌||◌, Option, none, some, List, [],
  ◌∷◌, ◌++◌, min, ltb, leb, if◌then◌else◌,
}
use Prim.Native.Nat.{◌^◌}
use borg_mcp_client.Prelude.Result.{Result, ok, err, ◌>>=◌}
use borg_mcp_client.Prelude.Lists.{length, drop, filter}
use borg_mcp_client.Text.{Text, ◌==◌, member}
use borg_mcp_client.Wake.{CodexState}

abbrev pub delivered_wake_key_cap : ℕ
delivered_wake_key_cap = 100

abbrev pub wake_retry_base_ms : ℕ
wake_retry_base_ms = 5000

abbrev pub wake_retry_cap_ms : ℕ
wake_retry_cap_ms = 60000

abbrev pub wake_retry_max_age_ms : ℕ
wake_retry_max_age_ms = 45 * 60000

-- The variables of the module that decide.
pub record Bridge : Type 0 where
  pub inject_in_flight : Bool
  pub delivered_wake_keys : List Text
  pub source_entry_ids : List Text
  pub has_unscoped_work : Bool
  pub retry_drain_in_flight : Bool
  pub delivery_deferred : Bool
  pub last_delivered_at : Option ℕ

-- The answers to the calls of one attempt, in the order of the calls.
pub record Answers : Type 0 where
  pub now : ℕ
  pub active : Result Text Bool
  pub pending : Text → Result Text Bool
  pub resolved : Result Text (Option Text)
  pub connected : Result Text (Unit {0})
  pub is_mid_turn : Result Text Bool
  pub pending_again : Text → Result Text Bool
  pub started : Result Text (Unit {0})
  pub others : Bridge → Bridge

abbrev pub add_id : Text → List Text → List Text
add_id id ids = if member id ids then ids else ids ++ (id ∷ [])

unfoldable pub schedule_retry_drain : Option Text → Bridge → Bridge
unfolding member
schedule_retry_drain none b = record b { has_unscoped_work = true; retry_drain_in_flight = true }
schedule_retry_drain (some id) b = record b {
  source_entry_ids = add_id id b.source_entry_ids;
  retry_drain_in_flight = true;
}

unfoldable pub mark_delivered : ℕ → Bridge → Bridge
mark_delivered now b = record b { last_delivered_at = some now; delivery_deferred = false }

-- The set and the order of its insertions are one list.
unfoldable pub remember_key : Text → List Text → List Text
unfolding member
remember_key key keys =
    if member key keys
    then keys
    else let all = keys ++ (key ∷ []) in drop (length all - delivered_wake_key_cap) all

-- A request for a wake: the text of its prompt, or the identity of the delivery, and the entry.
pub record WakeRequest : Type 0 where
  pub reason : Text
  pub delivery_identity : Option Text
  pub source_entry_id : Option Text

abbrev pub or_reason : Option Text → Text → Text
or_reason none reason = reason
or_reason (some identity) reason = identity

unfoldable pub wake_key : WakeRequest → Text → Text
wake_key request thread = thread ++ (0 ∷ or_reason request.delivery_identity request.reason)

-- How an attempt for one entry ends, if nothing throws.
pub data Exit : Type 0 where
  no_cube settled no_target duplicate mid_turn : Exit
  delivered : Text → Exit

abbrev pub pending_of : (Text → Result Text Bool) → Option Text → Result Text Bool
pending_of pending none = ok true
pending_of pending (some id) = pending id

unfoldable pub inject : WakeRequest → Answers → Text → Result Text Exit
unfolding wake_key
inject request a thread = do
  connection ← a.connected
  busy ← a.is_mid_turn
  if busy then ok mid_turn else (do
    wanted ← pending_of a.pending_again request.source_entry_id
    if not wanted
        then ok settled
        else (do turn ← a.started; ok (delivered (wake_key request thread))))

abbrev pub at_target : WakeRequest → Answers → List Text → Option Text → Result Text Exit
unfolding inject
at_target request a keys none = ok no_target
at_target request a keys (some thread) =
    if member (wake_key request thread) keys then ok duplicate else inject request a thread

unfoldable pub attempt : WakeRequest → Answers → List Text → Result Text Exit
unfolding at_target
attempt request a keys = do
  is_active ← a.active
  if not is_active then ok no_cube else (do
    wanted ← pending_of a.pending request.source_entry_id
    if not wanted then ok settled else (do target ← a.resolved; at_target request a keys target))

abbrev pub defer_scoped : Option Text → Bridge → Bridge
defer_scoped none b = b
defer_scoped (some id) b = record b { delivery_deferred = true }

unfoldable pub conclude_wake : WakeRequest → ℕ → Result Text Exit → Bridge → Bridge
unfolding schedule_retry_drain mark_delivered remember_key
conclude_wake request now (err code) b = schedule_retry_drain request.source_entry_id b
conclude_wake request now (ok no_cube) b = b
conclude_wake request now (ok settled) b = b
conclude_wake request now (ok no_target) b =
    schedule_retry_drain request.source_entry_id (defer_scoped request.source_entry_id b)
conclude_wake request now (ok duplicate) b = b
conclude_wake request now (ok mid_turn) b = schedule_retry_drain request.source_entry_id b
conclude_wake request now (ok (delivered key)) b =
    mark_delivered now (record b { delivered_wake_keys = remember_key key b.delivered_wake_keys })

abbrev pub released : Bridge → Bridge
released b = record b { inject_in_flight = false }

-- `wakeCodexTargeted`. The lock is held from the check on; the other paths see it.
unfoldable pub wake_codex_targeted : WakeRequest → Answers → Bridge → Bridge
unfolding attempt conclude_wake schedule_retry_drain
wake_codex_targeted request a b =
    if b.inject_in_flight
    then schedule_retry_drain request.source_entry_id b
    else released (
        conclude_wake request a.now (attempt request a b.delivered_wake_keys)
          (a.others (record b { inject_in_flight = true })))

-- `getCodexDeliveryState`, as far as the health reads it
abbrev pub count_unscoped : Bool → ℕ
count_unscoped true = 1
count_unscoped false = 0

unfoldable pub delivery_state : Bridge → CodexState
delivery_state b = record {
  retry_drain_active = b.retry_drain_in_flight;
  deferred_entry_count = length b.source_entry_ids + count_unscoped b.has_unscoped_work;
  delivery_deferred = b.delivery_deferred;
}
