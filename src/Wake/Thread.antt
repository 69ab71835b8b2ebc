-- ===== src/Wake/Thread.antt =====
-- Which loaded thread of Codex is woken (`pickFreshThread` of src/codex-wake-resolve.ts).
pub mod Pools
pub mod Fresh
mod Tests
use borg_mcp_client.Prelude.{
  ℕ, zero, suc, ◌≤◌, ◌≡◌, ◌⊎◌, inl, inr, refl, Bool, true, false, not, ◌&&◌, ◌||◌, Option, none,
  some, List, [], ◌∷◌, ltb, if◌then◌else◌, arith,
}
use borg_mcp_client.Prelude.Lists.{All, filter, any}
use borg_mcp_client.Text.{Text, ◌==◌}

-- A loaded thread. Absent instants and turns read as zero and none, an absent preview as empty.
pub record Thread : Type 0 where
  pub id : Text
  pub cwd : Option Text
  pub updated_at : ℕ
  pub is_subagent : Bool
  pub is_ephemeral : Bool
  pub is_of_user : Bool
  pub has_turns : Bool
  pub has_preview : Bool

abbrev pub is_root : Thread → Bool
is_root t = not t.is_subagent && not t.is_ephemeral && t.is_of_user

unfoldable pub is_at : Text → Option Text → Bool
is_at cwd none = false
is_at cwd (some c) = c == cwd

abbrev pub or_all : List Thread → List Thread → List Thread
or_all [] all = all
or_all (t ∷ matches) all = t ∷ matches

-- Threads without a turn and without a preview give way to one with turns.
abbrev pub without_empty : List Thread → List Thread
without_empty pool =
    if any (λ t. t.has_turns) pool then filter (λ t. t.has_turns || t.has_preview) pool else pool

abbrev pub newest : Thread → List Thread → Thread
newest best [] = best
newest best (t ∷ pool) = newest (if ltb best.updated_at t.updated_at then t else best) pool

abbrev pub newest_of : List Thread → Option Thread
newest_of [] = none
newest_of (t ∷ pool) = some (newest t (t ∷ pool))

unfoldable pub fresh_pool : Text → List Thread → List Thread
unfolding is_at
fresh_pool cwd roots = without_empty (or_all (filter (λ t. is_at cwd t.cwd) roots) roots)

abbrev pub pick_root : Text → List Thread → Option Thread
unfolding fresh_pool
pick_root cwd [] = none
pick_root cwd (t ∷ []) = some t
pick_root cwd (t ∷ u ∷ roots) = newest_of (fresh_pool cwd (t ∷ u ∷ roots))

-- The thread whose id is returned.
unfoldable pub pick_fresh_thread : Text → List Thread → Option Thread
unfolding pick_root
pick_fresh_thread cwd threads = pick_root cwd (filter is_root threads)
