-- ===== src/Wake/Bridge/Kept.antt =====
-- No wake is lost: an attempt that does not deliver schedules its entry (src/codex-app-wake.ts).
use borg_mcp_client.Prelude.{
  ◌≡◌, ◌⊎◌, inl, inr, refl, true, false, none, some, List, [], ◌∷◌, ◌++◌, arith, Bool-cases,
}
use borg_mcp_client.Prelude.Result.{Result, ok, err}
use borg_mcp_client.Text.{Text, member, eq_refl}
use borg_mcp_client.Wake.{codex_wake_path_healthy}
use borg_mcp_client.Wake.Bridge.{
  Bridge, Answers, WakeRequest, Exit, no_cube, settled, no_target, duplicate, mid_turn, delivered,
  wake_key, schedule_retry_drain, mark_delivered, attempt, conclude_wake, wake_codex_targeted,
  add_id, defer_scoped, released, delivery_state,
}
use borg_mcp_client.Wake.Bridge.Grounds.{IsGrounded, attempt-IsGrounded}

-- The entry is in the retry drain, which runs.
abbrev pub IsScheduled : Text → Bridge → Type 0
IsScheduled id b = (member id b.source_entry_ids ≡ true) × (b.retry_drain_in_flight ≡ true)

-- What the answers say when there is no need to wake for the entry: no cube is active, the entry is
-- not pending, a wake with its key was delivered to the thread before, the entry is found read once
-- the thread is found idle, or a turn was started in the idle thread, which the state after it tells.
pub data NeedsNone (request : WakeRequest) (id : Text) (a : Answers) (keys : List Text)
    (after : Bridge) : Type 0 where
  inactive : a.active ≡ ok false → NeedsNone request id a keys after
  not_pending : a.pending id ≡ ok false → NeedsNone request id a keys after
  known_key :
      (thread : Text)
      → a.resolved ≡ ok (some thread)
      → member (wake_key request thread) keys ≡ true
      → NeedsNone request id a keys after
  read_since :
      a.is_mid_turn ≡ ok false → a.pending_again id ≡ ok false → NeedsNone request id a keys after
  turn_started :
      (thread : Text)
      → a.resolved ≡ ok (some thread)
      → a.is_mid_turn ≡ ok false
      → a.started ≡ ok tt
      → after.last_delivered_at ≡ some a.now
      → NeedsNone request id a keys after

member-append : (id : Text) (ids : List Text) → member id (ids ++ (id ∷ [])) ≡ true
unfolding member
member-append id [] = rw (eq_refl id) refl
member-append id (i ∷ ids) = rw (member-append id ids) (ground arith)

member-add_id : (id : Text) (ids : List Text) → member id (add_id id ids) ≡ true
unfolding member
member-add_id id ids = elim (Bool-cases (member id ids)) [
  | inl q ↦ rw (q, q) refl
  | inr q ↦ rw q (member-append id ids)
]

schedule-IsScheduled : (id : Text) (b : Bridge) → IsScheduled id (schedule_retry_drain (some id) b)
unfolding schedule_retry_drain
schedule-IsScheduled id b = (member-add_id id b.source_entry_ids, refl)

conclude_wake-IsScheduled :
    (request : WakeRequest) (id : Text) (a : Answers) (keys : List Text) (exit : Result Text Exit)
    (b : Bridge)
    → request.source_entry_id ≡ some id
    → IsGrounded request id a keys exit
    → IsScheduled id (conclude_wake request a.now exit b)
      ⊎ NeedsNone request id a keys (released (conclude_wake request a.now exit b))
unfolding conclude_wake mark_delivered
conclude_wake-IsScheduled request id a keys (err code) b h g =
    inl (rw h (schedule-IsScheduled id b))
conclude_wake-IsScheduled request id a keys (ok no_cube) b h g = inr (inactive g)
conclude_wake-IsScheduled request id a keys (ok settled) b h (inl g) = inr (not_pending g)
conclude_wake-IsScheduled request id a keys (ok settled) b h (inr (m, g)) = inr (read_since m g)
conclude_wake-IsScheduled request id a keys (ok no_target) b h g =
    inl (rw h (schedule-IsScheduled id (defer_scoped (some id) b)))
conclude_wake-IsScheduled request id a keys (ok duplicate) b h (thread, r, k) =
    inr (known_key thread r k)
conclude_wake-IsScheduled request id a keys (ok mid_turn) b h g =
    inl (rw h (schedule-IsScheduled id b))
conclude_wake-IsScheduled request id a keys (ok (delivered key)) b h (thread, r, m, s) =
    inr (turn_started thread r m s refl)

-- A wake for an entry is never lost: afterwards the entry is in a running retry drain, unless the
-- lock was free and no cube is active, the entry is not pending any more, a wake with its key was
-- delivered to the thread before, or a turn was started in the thread, which was not in a turn. So an
-- attempt where a needed call throws, where the thread is in a turn or not loaded, or while another
-- path holds the lock, schedules its entry.
pub wake_codex_targeted-IsScheduled :
    (request : WakeRequest) (id : Text) (a : Answers) (b : Bridge)
    → request.source_entry_id ≡ some id
    → IsScheduled id (wake_codex_targeted request a b)
      ⊎ ((b.inject_in_flight ≡ false)
          × NeedsNone request id a b.delivered_wake_keys (wake_codex_targeted request a b))
unfolding wake_codex_targeted
wake_codex_targeted-IsScheduled request id a b h = elim (Bool-cases b.inject_in_flight) [
  | inl q ↦ inl (rw (q, h) (schedule-IsScheduled id b))
  | inr q ↦
      elim (conclude_wake-IsScheduled request id a b.delivered_wake_keys
        (attempt request a b.delivered_wake_keys) (a.others (record b { inject_in_flight = true }))
        h (attempt-IsGrounded request id a b.delivered_wake_keys h)) [
          | inl scheduled ↦ inl (rw q scheduled)
          | inr none_needed ↦ inr (q, rw q none_needed)
        ]
]

-- The health tells of a scheduled entry: the wake path of an armed bridge is then not healthy.
pub delivery_state-IsScheduled :
    (id : Text) (b : Bridge)
    → IsScheduled id b
    → codex_wake_path_healthy (some true) (delivery_state b) ≡ none
unfolding codex_wake_path_healthy delivery_state
delivery_state-IsScheduled id b (member_of, running) = rw running refl
