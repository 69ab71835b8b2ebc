-- ===== src/Wake/Thread/Tests.antt =====
-- A choice of a thread (src/codex-wake-resolve.ts), and the theorem at it.
use borg_mcp_client.Prelude.{ℕ, ◌≡◌, refl, Bool, true, false, Option, none, some, List, [], ◌∷◌}
use borg_mcp_client.Prelude.Lists.{filter}
use borg_mcp_client.Text.{Text, ◌==◌}
use borg_mcp_client.Wake.Thread.{Thread, is_root, is_at, fresh_pool, pick_fresh_thread}
use borg_mcp_client.Wake.Thread.Fresh.{IsFresh, pick_fresh_thread-IsFresh}

runs : Unit {0}
unfolding ◌==◌ is_at fresh_pool pick_fresh_thread
runs = tt

abbrev thread : ℕ → Option Text → ℕ → Bool → Thread
thread id cwd updated_at has_turns = record {
  id = id ∷ [];
  cwd = cwd;
  updated_at = updated_at;
  is_subagent = false;
  is_ephemeral = false;
  is_of_user = true;
  has_turns = has_turns;
  has_preview = false;
}

-- The newest at the directory is empty, the newest of all is elsewhere.
abbrev threads : List Thread
threads =
    thread 1 (some (9 ∷ [])) 10 true
    ∷ thread 2 (some (9 ∷ [])) 30 false
    ∷ thread 3 (some (8 ∷ [])) 40 true
    ∷ thread 4 (some (9 ∷ [])) 20 true
    ∷ []

pick_run : pick_fresh_thread (9 ∷ []) threads ≡ some (thread 4 (some (9 ∷ [])) 20 true)
unfolding runs
pick_run = refl

none_run : pick_fresh_thread (9 ∷ []) [] ≡ none
unfolding runs
none_run = refl

pick_fresh_thread-IsFresh_example :
    IsFresh (9 ∷ []) (filter is_root threads) (pick_fresh_thread (9 ∷ []) threads)
pick_fresh_thread-IsFresh_example = pick_fresh_thread-IsFresh (9 ∷ []) threads
