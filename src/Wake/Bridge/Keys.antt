-- ===== src/Wake/Bridge/Keys.antt =====
-- A wake is delivered once per key while the key is remembered (src/codex-app-wake.ts).
use borg_mcp_client.Prelude.{
  ℕ, zero, suc, ◌-◌, ◌≤◌, ◌≡◌, refl, true, false, some, List, [], ◌∷◌, ◌++◌, arith, Bool-cases, inl,
  inr,
}
use borg_mcp_client.Prelude.Result.{Result, ok}
use borg_mcp_client.Prelude.Lists.{length, drop, length-drop, length-append}
use borg_mcp_client.Text.{Text, member, eq_refl}
use borg_mcp_client.Wake.Bridge.{
  Bridge, Answers, WakeRequest, Exit, delivered, delivered_wake_key_cap, remember_key, wake_key,
  attempt, inject, at_target, wake_codex_targeted, conclude_wake, mark_delivered,
}

pub remember_key_bound :
    (key : Text) (keys : List Text)
    → length keys ≤ delivered_wake_key_cap
    → length (remember_key key keys) ≤ delivered_wake_key_cap
unfolding remember_key
remember_key_bound key keys h = ground (
  arith,
  length-append keys (key ∷ []),
  length-drop (length (keys ++ (key ∷ [])) - delivered_wake_key_cap) (keys ++ (key ∷ [])),
)

member-drop :
    (n : ℕ) (key : Text) (keys : List Text)
    → n ≤ length keys
    → member key (drop n (keys ++ (key ∷ []))) ≡ true
unfolding member
member-drop zero key [] h = rw (eq_refl key) refl
member-drop zero key (k ∷ keys) h = rw (member-drop zero key keys (omega arith)) (ground arith)
member-drop (suc n) key [] h = absurd (omega arith)
member-drop (suc n) key (k ∷ keys) h = member-drop n key keys (omega arith)

member-remember_key : (key : Text) (keys : List Text) → member key (remember_key key keys) ≡ true
unfolding remember_key
member-remember_key key keys = elim (Bool-cases (member key keys)) [
  | inl q ↦ rw (q, q) refl
  | inr q ↦ rw q (
      member-drop (length (keys ++ (key ∷ [])) - delivered_wake_key_cap) key keys
        (omega (arith, length-append keys (key ∷ []))))
]

-- The attempt starts no turn.
abbrev pub StartsNone : Result Text Exit → Type 0
StartsNone (ok (delivered key)) = ⊥
StartsNone _ = Unit

at_target-StartsNone :
    (request : WakeRequest) (a : Answers) (keys : List Text) (thread : Text)
    → member (wake_key request thread) keys ≡ true
    → StartsNone (at_target request a keys (some thread))
unfolding inject
at_target-StartsNone request a keys thread h = rw h tt

attempt-StartsNone :
    (request : WakeRequest) (a : Answers) (keys : List Text) (thread : Text)
    → a.resolved ≡ ok (some thread)
    → member (wake_key request thread) keys ≡ true
    → StartsNone (attempt request a keys)
unfolding attempt
attempt-StartsNone request a keys thread r h =
    rw r (ground (arith, at_target-StartsNone request a keys thread h))

-- A wake that was delivered is not delivered again: if one attempt, which found the lock free, started
-- a turn for a request, then the next attempt for the same request to the same thread starts none,
-- whatever its calls answer, if the other paths leave the remembered keys as they are.
pub wake_codex_targeted_once :
    (request : WakeRequest) (thread : Text) (first again : Answers) (b : Bridge)
    → b.inject_in_flight ≡ false
    → attempt request first b.delivered_wake_keys ≡ ok (delivered (wake_key request thread))
    → ((x : Bridge) → (first.others x).delivered_wake_keys ≡ x.delivered_wake_keys)
    → again.resolved ≡ ok (some thread)
    → StartsNone (attempt request again (wake_codex_targeted request first b).delivered_wake_keys)
unfolding wake_codex_targeted conclude_wake mark_delivered
wake_codex_targeted_once request thread first again b free h same r =
    attempt-StartsNone request again (wake_codex_targeted request first b).delivered_wake_keys
      thread r
      (rw (free, h, same (record b { inject_in_flight = true }))
        (member-remember_key (wake_key request thread) b.delivered_wake_keys))
