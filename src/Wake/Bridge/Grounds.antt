-- ===== src/Wake/Bridge/Grounds.antt =====
-- Why an attempt to wake Codex ends without a need to try again (src/codex-app-wake.ts).
use borg_mcp_client.Prelude.{
  ◌≡◌, ◌⊎◌, inl, inr, refl, sym, ap, Bool, true, false, not, Option, none, some, List, Bool-cases,
  if◌then◌else◌,
}
use borg_mcp_client.Prelude.Result.{Result, ok, err, ◌>>=◌}
use borg_mcp_client.Text.{Text, member}
use borg_mcp_client.Wake.Bridge.{
  Answers, WakeRequest, Exit, no_cube, settled, no_target, duplicate, mid_turn, delivered, wake_key,
  inject, at_target, attempt, pending_of,
}

-- What the answers say when an attempt ends in a way that schedules nothing.
abbrev pub IsGrounded : WakeRequest → Text → Answers → List Text → Result Text Exit → Type 0
IsGrounded request id a keys (err code) = Unit
IsGrounded request id a keys (ok no_cube) = a.active ≡ ok false
IsGrounded request id a keys (ok settled) =
    (a.pending id ≡ ok false) ⊎ ((a.is_mid_turn ≡ ok false) × (a.pending_again id ≡ ok false))
IsGrounded request id a keys (ok no_target) = Unit
IsGrounded request id a keys (ok duplicate) =
    (thread : Text) × (a.resolved ≡ ok (some thread))
    × (member (wake_key request thread) keys ≡ true)
IsGrounded request id a keys (ok mid_turn) = Unit
IsGrounded request id a keys (ok (delivered key)) =
    (thread : Text) × (a.resolved ≡ ok (some thread))
    × (a.is_mid_turn ≡ ok false)
    × (a.started ≡ ok tt)

-- The steps of an attempt from its last to its first, each by what its call answers.
module _ (request : WakeRequest) (id : Text) (a : Answers) (keys : List Text) where
  turn-IsGrounded :
      (thread : Text) (started : Result Text (Unit {0}))
      → a.resolved ≡ ok (some thread)
      → a.is_mid_turn ≡ ok false
      → a.started ≡ started
      → IsGrounded request id a keys
          (started >>= (λ turn. ok (delivered (wake_key request thread))))
  turn-IsGrounded thread (err code) r m s = tt
  turn-IsGrounded thread (ok tt) r m s = (thread, r, m, s)

  again-IsGrounded :
      (thread : Text) (again : Result Text Bool)
      → a.resolved ≡ ok (some thread)
      → a.is_mid_turn ≡ ok false
      → a.pending_again id ≡ again
      → IsGrounded request id a keys (do
        wanted ← again
        if not wanted
            then ok settled
            else (do turn ← a.started; ok (delivered (wake_key request thread))))
  again-IsGrounded thread (err code) r m p = tt
  again-IsGrounded thread (ok true) r m p = turn-IsGrounded thread a.started r m refl
  again-IsGrounded thread (ok false) r m p = inr (m, p)

  idle-IsGrounded :
      (thread : Text) (busy : Result Text Bool)
      → a.resolved ≡ ok (some thread)
      → a.is_mid_turn ≡ busy
      → IsGrounded request id a keys (do
        is_busy ← busy
        if is_busy then ok mid_turn else (do
          wanted ← a.pending_again id
          if not wanted
              then ok settled
              else (do turn ← a.started; ok (delivered (wake_key request thread)))))
  idle-IsGrounded thread (err code) r m = tt
  idle-IsGrounded thread (ok true) r m = tt
  idle-IsGrounded thread (ok false) r m = again-IsGrounded thread (a.pending_again id) r m refl

  module _ (of_entry : request.source_entry_id ≡ some id) where
    inject-IsGrounded :
        (thread : Text)
        → a.resolved ≡ ok (some thread)
        → IsGrounded request id a keys (inject request a thread)
    unfolding inject
    inject-IsGrounded thread r =
        rw of_entry
          (elim a.connected
            as (λ connected. IsGrounded request id a keys (do
              connection ← connected
              busy ← a.is_mid_turn
              if busy then ok mid_turn else (do
                wanted ← a.pending_again id
                if not wanted
                    then ok settled
                    else (do turn ← a.started; ok (delivered (wake_key request thread)))))) [
                      | err code ↦ tt
                      | ok connection ↦ idle-IsGrounded thread a.is_mid_turn r refl
                    ])

    target-IsGrounded :
        (resolved : Result Text (Option Text))
        → a.resolved ≡ resolved
        → IsGrounded request id a keys (resolved >>= at_target request a keys)
    unfolding at_target
    target-IsGrounded (err code) r = tt
    target-IsGrounded (ok none) r = tt
    target-IsGrounded (ok (some thread)) r =
        elim (Bool-cases (member (wake_key request thread) keys)) [
          | inl known ↦ rw known (thread, r, known)
          | inr new ↦ rw new (inject-IsGrounded thread r)
        ]

    pending-IsGrounded :
        (pending : Result Text Bool)
        → a.pending id ≡ pending
        → IsGrounded request id a keys (do
          wanted ← pending
          if not wanted
              then ok settled
              else (do target ← a.resolved; at_target request a keys target))
    pending-IsGrounded (err code) p = tt
    pending-IsGrounded (ok true) p = target-IsGrounded a.resolved refl
    pending-IsGrounded (ok false) p = inl p

    active-IsGrounded :
        (active : Result Text Bool)
        → a.active ≡ active
        → IsGrounded request id a keys (do
          is_active ← active
          if not is_active then ok no_cube else (do
            wanted ← pending_of a.pending request.source_entry_id
            if not wanted
                then ok settled
                else (do target ← a.resolved; at_target request a keys target)))
    active-IsGrounded (err code) q = tt
    active-IsGrounded (ok true) q =
        pending-IsGrounded (pending_of a.pending request.source_entry_id)
          (sym (ap (pending_of a.pending) of_entry))
    active-IsGrounded (ok false) q = q

    pub attempt-IsGrounded : IsGrounded request id a keys (attempt request a keys)
    unfolding attempt
    attempt-IsGrounded = active-IsGrounded a.active refl
