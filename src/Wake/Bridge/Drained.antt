-- ===== src/Wake/Bridge/Drained.antt =====
-- The retry drain ends, and leaves nothing behind (src/codex-app-wake.ts).
use borg_mcp_client.Prelude.{
  ℕ, zero, suc, ◌<◌, ◌≡◌, ◌⊎◌, inl, inr, Bool, true, false, if◌then◌else◌, arith, Bool-cases,
}
use borg_mcp_client.Prelude.Lists.{filter}
use borg_mcp_client.Wake.Bridge.{Bridge, Answers, mark_delivered}
use borg_mcp_client.Wake.Bridge.Drain.{
  is_unread, prune_again, is_done, drain_started, drain_idle, drain_connected, drain_target,
  drain_active, drain_attempt, hand_off, drain_loop, run_retry_drain, wake_retry_expired,
}
use borg_mcp_client.Wake.Bridge.Progress.{
  KeepsWork, HasStarted, Progressed, drain_attempt-Progressed,
}

-- If the attempt ends the drain, then no work is left.
abbrev IsDone : Bool × Bridge → Type 0
IsDone (true, b) = is_done b ≡ true
IsDone (false, b) = Unit

drain_started-IsDone : (a : Answers) (b : Bridge) → IsDone (drain_started a b)
unfolding mark_delivered drain_started
drain_started-IsDone a b = ground arith

drain_idle-IsDone : (a : Answers) (b : Bridge) → IsDone (drain_idle a b)
unfolding drain_idle
drain_idle-IsDone a b = ground (
  arith,
  drain_started-IsDone a
      (record b { source_entry_ids = (prune_again a.pending_again b.source_entry_ids).1 }),
)

drain_target-IsDone : (a : Answers) (b : Bridge) → IsDone (drain_target a b)
unfolding drain_connected drain_target
drain_target-IsDone a b = ground (arith, drain_idle-IsDone a b)

drain_active-IsDone : (a : Answers) (b : Bridge) → IsDone (drain_active a b)
unfolding drain_active
drain_active-IsDone a b = ground (
  arith,
  drain_target-IsDone a
      (record b { source_entry_ids = filter (is_unread a.pending) b.source_entry_ids }),
)

drain_attempt-IsDone : (a : Answers) (b : Bridge) → IsDone (drain_attempt a b)
unfolding drain_attempt
drain_attempt-IsDone a b =
    ground (arith, drain_active-IsDone a (record b { inject_in_flight = true }))

hand_off-is_done : (b : Bridge) → is_done (hand_off b) ≡ true
unfolding hand_off
hand_off-is_done b = ground arith

after_attempt-is_done :
    (next : Bridge → Bridge) (tried : Bool × Bridge)
    → IsDone tried
    → ((b : Bridge) → is_done (next b) ≡ true)
    → is_done (if tried.0 then tried.1 else next tried.1) ≡ true
after_attempt-is_done next (true, b) h rest = h
after_attempt-is_done next (false, b) h rest = rest b

drain_loop-is_done :
    (left started_at : ℕ) (clock : ℕ → ℕ) (slept : ℕ → Bridge → Bridge) (answers : ℕ → Answers)
    (b : Bridge)
    → is_done (drain_loop left started_at clock slept answers b) ≡ true
unfolding drain_loop
drain_loop-is_done zero started_at clock slept answers b = hand_off-is_done b
drain_loop-is_done (suc left) started_at clock slept answers b =
    elim (Bool-cases (wake_retry_expired started_at (clock left))) [
      | inl q ↦ rw q (hand_off-is_done b)
      | inr q ↦ rw q (
          after_attempt-is_done (drain_loop left started_at clock slept answers)
            (drain_attempt (answers left) (slept left b))
            (drain_attempt-IsDone (answers left) (slept left b))
            (drain_loop-is_done left started_at clock slept answers))
    ]

-- One of fewer than `attempts` attempts started a turn, or the heartbeat has the work.
abbrev pub IsCarried : ℕ → (ℕ → Answers) → Bridge → Type 0
IsCarried attempts answers b =
    (b.delivery_deferred ≡ true) ⊎ ((n : ℕ) × (n < attempts) × HasStarted (answers n) b)

IsCarried-weaken :
    (attempts : ℕ) (answers : ℕ → Answers) (b : Bridge)
    → IsCarried attempts answers b
    → IsCarried (suc attempts) answers b
IsCarried-weaken attempts answers b (inl deferred) = inl deferred
IsCarried-weaken attempts answers b (inr (n, below, started)) = inr (n, omega arith, started)

hand_off-deferred :
    (b : Bridge) → b.has_unscoped_work ≡ true → (hand_off b).delivery_deferred ≡ true
unfolding hand_off
hand_off-deferred b h = ground arith

after_attempt-IsCarried :
    (answers : ℕ → Answers) (n : ℕ) (next : Bridge → Bridge) (tried : Bool × Bridge)
    → Progressed (answers n) tried
    → ((b : Bridge) → b.has_unscoped_work ≡ true → IsCarried n answers (next b))
    → IsCarried (suc n) answers (if tried.0 then tried.1 else next tried.1)
after_attempt-IsCarried answers n next (true, b) p rest = inr (n, omega arith, p)
after_attempt-IsCarried answers n next (false, b) p rest =
    IsCarried-weaken n answers (next b) (rest b p)

drain_loop-IsCarried :
    (left started_at : ℕ) (clock : ℕ → ℕ) (slept : ℕ → Bridge → Bridge) (answers : ℕ → Answers)
    (b : Bridge)
    → ((n : ℕ) → KeepsWork (slept n))
    → ((n : ℕ) → KeepsWork (answers n).others)
    → b.has_unscoped_work ≡ true
    → IsCarried left answers (drain_loop left started_at clock slept answers b)
unfolding drain_loop
drain_loop-IsCarried zero started_at clock slept answers b sleeps others h =
    inl (hand_off-deferred b h)
drain_loop-IsCarried (suc left) started_at clock slept answers b sleeps others h =
    elim (Bool-cases (wake_retry_expired started_at (clock left))) [
      | inl q ↦ rw q (inl (hand_off-deferred b h))
      | inr q ↦ rw q (
          after_attempt-IsCarried answers left (drain_loop left started_at clock slept answers)
            (drain_attempt (answers left) (slept left b))
            (drain_attempt-Progressed (answers left) (others left) (slept left b) (sleeps left b h))
            (λ after. drain_loop-IsCarried left started_at clock slept answers after sleeps others))
    ]

-- A retry drain that starts with work without an entry ends after at most its number of attempts
-- with an empty queue, and the work is carried, if what runs meanwhile takes no such work away: one
-- of these attempts found the thread loaded and idle, started a turn in it and noted its time as the
-- last delivery, or the work is marked as deferred for the heartbeat.
pub run_retry_drain-IsCarried :
    (max_attempts started_at : ℕ) (clock : ℕ → ℕ) (slept : ℕ → Bridge → Bridge)
    (answers : ℕ → Answers) (b : Bridge)
    → ((n : ℕ) → KeepsWork (slept n))
    → ((n : ℕ) → KeepsWork (answers n).others)
    → b.has_unscoped_work ≡ true
    → (is_done (run_retry_drain max_attempts started_at clock slept answers b) ≡ true)
      × IsCarried max_attempts answers
          (run_retry_drain max_attempts started_at clock slept answers b)
unfolding run_retry_drain
run_retry_drain-IsCarried max_attempts started_at clock slept answers b sleeps others h = (
  drain_loop-is_done max_attempts started_at clock slept answers b,
  drain_loop-IsCarried max_attempts started_at clock slept answers b sleeps others h,
)
