-- ===== src/Wake/Bridge/Tests.antt =====
-- Runs of the Codex wake bridge (src/codex-app-wake.ts), and the theorems at one.
use borg_mcp_client.Prelude.{ℕ, zero, suc, ◌≡◌, ◌⊎◌, refl, Bool, true, false, none, some, [], ◌∷◌}
use borg_mcp_client.Prelude.Result.{ok}
use borg_mcp_client.Text.{◌==◌, member}
use borg_mcp_client.Wake.Bridge.{
  Bridge, Answers, WakeRequest, delivered, wake_key, attempt, inject, wake_codex_targeted,
  conclude_wake, remember_key, mark_delivered, schedule_retry_drain,
}
use borg_mcp_client.Wake.Bridge.Drain.{
  is_done, run_retry_drain, drain_loop, drain_attempt, drain_started, drain_connected, drain_target,
  drain_active, drain_idle, prune_again, hand_off, wake_retry_expired,
}
use borg_mcp_client.Wake.Bridge.Kept.{IsScheduled, NeedsNone, wake_codex_targeted-IsScheduled}
use borg_mcp_client.Wake.Bridge.Progress.{KeepsWork}
use borg_mcp_client.Wake.Bridge.Drained.{IsCarried, run_retry_drain-IsCarried}
use borg_mcp_client.Wake.Bridge.Keys.{StartsNone, wake_codex_targeted_once}

runs : Unit {0}
unfolding ◌==◌ member wake_key attempt inject wake_codex_targeted conclude_wake remember_key
    mark_delivered schedule_retry_drain run_retry_drain drain_loop drain_attempt drain_started
    drain_connected drain_target drain_active drain_idle prune_again hand_off wake_retry_expired
runs = tt

abbrev idle : Bridge
idle = record {
  inject_in_flight = false;
  delivered_wake_keys = [];
  source_entry_ids = [];
  has_unscoped_work = false;
  retry_drain_in_flight = false;
  delivery_deferred = false;
  last_delivered_at = none;
}

-- The thread 7 is loaded, and busy or not.
abbrev answers : Bool → ℕ → Answers
answers busy now = record {
  now = now;
  active = ok true;
  pending = λ id. ok true;
  resolved = ok (some (7 ∷ []));
  connected = ok tt;
  is_mid_turn = ok busy;
  pending_again = λ id. ok true;
  started = ok tt;
  others = λ b. b;
}

abbrev request : WakeRequest
request = record { reason = 1 ∷ []; delivery_identity = none; source_entry_id = some (3 ∷ []) }

busy_run :
    wake_codex_targeted request (answers true 50) idle
    ≡ record idle { source_entry_ids = (3 ∷ []) ∷ []; retry_drain_in_flight = true }
unfolding runs
busy_run = refl

delivered_run : attempt request (answers false 50) [] ≡ ok (delivered (7 ∷ 0 ∷ 1 ∷ []))
unfolding runs
delivered_run = refl

key_run : attempt request (answers false 50) [] ≡ ok (delivered (wake_key request (7 ∷ [])))
unfolding runs
key_run = refl

-- The thread is busy at the first two attempts.
abbrev world : ℕ → Answers
world zero = answers false 90
world (suc n) = answers true 80

world-KeepsWork : (n : ℕ) → KeepsWork (world n).others
world-KeepsWork zero b h = h
world-KeepsWork (suc n) b h = h

abbrev waiting : Bridge
waiting = record idle { has_unscoped_work = true; retry_drain_in_flight = true }

drained_run : (run_retry_drain 3 0 (λ n. 10) (λ n b. b) world waiting).last_delivered_at ≡ some 90
unfolding runs
drained_run = refl

aged_run :
    (run_retry_drain 2 0 (λ n. 10) (λ n b. b) (λ n. answers true 80) waiting).delivery_deferred
    ≡ true
unfolding runs
aged_run = refl

wake_codex_targeted-IsScheduled_example :
    IsScheduled (3 ∷ []) (wake_codex_targeted request (answers true 50) idle)
    ⊎ ((idle.inject_in_flight ≡ false)
        × NeedsNone request
            (3 ∷ [])
            (answers true 50)
            []
            (wake_codex_targeted request (answers true 50) idle))
wake_codex_targeted-IsScheduled_example =
    wake_codex_targeted-IsScheduled request (3 ∷ []) (answers true 50) idle refl

run_retry_drain-IsCarried_example :
    (is_done (run_retry_drain 3 0 (λ n. 10) (λ n b. b) world waiting) ≡ true)
    × IsCarried 3 world (run_retry_drain 3 0 (λ n. 10) (λ n b. b) world waiting)
run_retry_drain-IsCarried_example =
    run_retry_drain-IsCarried 3 0 (λ n. 10) (λ n b. b) world waiting (λ n b h. h) world-KeepsWork
      refl

wake_codex_targeted_once_example : StartsNone (
    attempt request
      (answers false 60)
      (wake_codex_targeted request (answers false 50) idle).delivered_wake_keys)
wake_codex_targeted_once_example =
    wake_codex_targeted_once request (7 ∷ []) (answers false 50) (answers false 60) idle refl
      key_run (λ x. refl) refl
