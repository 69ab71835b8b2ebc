-- ===== src/Wake/Bridge/Drain.antt =====
-- The retry drain of the wakes that could not be delivered (`runRetryDrainLoop` of
-- src/codex-app-wake.ts, with the clocks of src/codex-wake-resolve.ts).
use borg_mcp_client.Prelude.{
  ℕ, zero, suc, ◌+◌, ◌-◌, ◌*◌, Bool, true, false, not, ◌&&◌, none, some, List, [], ◌∷◌, min, leb,
  if◌then◌else◌,
}
use Prim.Native.Nat.{◌^◌}
use borg_mcp_client.Prelude.Result.{Result, ok, err, ◌>>=◌}
use borg_mcp_client.Prelude.Lists.{filter}
use borg_mcp_client.Text.{Text}
use borg_mcp_client.Wake.Bridge.{
  Bridge, Answers, released, mark_delivered, wake_retry_base_ms, wake_retry_cap_ms,
  wake_retry_max_age_ms,
}

unfoldable pub wake_retry_backoff_ms : ℕ → ℕ → ℕ
wake_retry_backoff_ms attempts jitter =
    min wake_retry_cap_ms (wake_retry_base_ms * 2 ^ attempts) + jitter

unfoldable pub wake_retry_expired : ℕ → ℕ → Bool
wake_retry_expired started_at now = leb wake_retry_max_age_ms (now - started_at)

-- an entry that is known to be read is dropped; one that cannot be checked stays
abbrev pub is_unread : (Text → Result Text Bool) → Text → Bool
is_unread pending id = elim (pending id) [ err code ↦ true | ok wanted ↦ wanted ]

-- The second check: what is left, and whether a check threw.
unfoldable pub prune_again : (Text → Result Text Bool) → List Text → Bool × List Text
prune_again pending [] = (false, [])
prune_again pending (id ∷ ids) =
    let rest = prune_again pending ids in
    elim (pending id) [
      | err code ↦ (true, id ∷ ids)
      | ok true ↦ (rest.0, id ∷ rest.1)
      | ok false ↦ rest
    ]

abbrev pub is_done : Bridge → Bool
is_done b = not b.has_unscoped_work && elim b.source_entry_ids [ [] ↦ true | id ∷ ids ↦ false ]

abbrev pub cleared : Bridge → Bridge
cleared b = record b { source_entry_ids = []; has_unscoped_work = false }

-- Whether the drain ends, with the state. What is scheduled while the turn starts is cleared too.
unfoldable pub drain_started : Answers → Bridge → Bool × Bridge
unfolding mark_delivered
drain_started a b = elim a.started [
  | err code ↦ (false, a.others b)
  | ok turn ↦ (true, mark_delivered a.now (cleared (a.others b)))
]

unfoldable pub drain_idle : Answers → Bridge → Bool × Bridge
unfolding prune_again drain_started
drain_idle a b =
    let left = prune_again a.pending_again b.source_entry_ids in
    let next = record b { source_entry_ids = left.1 } in
    if left.0
    then (false, a.others next)
    else if is_done next
    then (true, next)
    else drain_started a next

unfoldable pub drain_connected : Answers → Bridge → Bool × Bridge
unfolding drain_idle
drain_connected a b = elim (a.connected >>= (λ connection. a.is_mid_turn)) [
  | err code ↦ (false, a.others b)
  | ok true ↦ (false, a.others b)
  | ok false ↦ drain_idle a b
]

unfoldable pub drain_target : Answers → Bridge → Bool × Bridge
unfolding drain_connected
drain_target a b = elim a.resolved [
  | err code ↦ (false, a.others b)
  | ok none ↦ (false, a.others b)
  | ok (some thread) ↦ drain_connected a b
]

unfoldable pub drain_active : Answers → Bridge → Bool × Bridge
unfolding drain_target
drain_active a b =
    let next = record b { source_entry_ids = filter (is_unread a.pending) b.source_entry_ids } in
    if is_done next then (true, next) else drain_target a next

-- One turn of the loop of `runRetryDrainLoop`, after its sleep.
unfoldable pub drain_attempt : Answers → Bridge → Bool × Bridge
unfolding drain_active
drain_attempt a b =
    if b.inject_in_flight
    then (false, b)
    else let held = record b { inject_in_flight = true } in
      let tried : Bool × Bridge = elim a.active [
        | err code ↦ (false, a.others held)
        | ok false ↦ (false, a.others held)
        | ok true ↦ drain_active a held
      ] in
      (tried.0, released tried.1)

-- Aged out: what is left is handed to the heartbeat.
unfoldable pub hand_off : Bridge → Bridge
hand_off b = if is_done b then b else record (cleared b) { delivery_deferred = true }

-- The loop; `left` counts the attempts down, and what the sleep before one lets happen is given.
unfoldable pub drain_loop :
    ℕ → ℕ → (ℕ → ℕ) → (ℕ → Bridge → Bridge) → (ℕ → Answers) → Bridge → Bridge
unfolding drain_attempt hand_off wake_retry_expired
drain_loop zero started_at clock slept answers b = hand_off b
drain_loop (suc left) started_at clock slept answers b =
    let tried = drain_attempt (answers left) (slept left b) in
    let rest = drain_loop left started_at clock slept answers tried.1 in
    if wake_retry_expired started_at (clock left)
    then hand_off b
    else if tried.0
    then tried.1
    else rest

abbrev pub wake_retry_max_attempts : ℕ
wake_retry_max_attempts = 1000

-- `max_attempts` is `WAKE_RETRY_MAX_ATTEMPTS` unless a test sets it.
unfoldable pub run_retry_drain :
    ℕ → ℕ → (ℕ → ℕ) → (ℕ → Bridge → Bridge) → (ℕ → Answers) → Bridge → Bridge
unfolding drain_loop
run_retry_drain max_attempts started_at clock slept answers b =
    record (drain_loop max_attempts started_at clock slept answers b) {
      retry_drain_in_flight = false;
    }
