-- ===== src/Wake/Thread/Fresh.antt =====
-- The thread that is woken is fresh (`pickFreshThread` of src/codex-wake-resolve.ts).
use borg_mcp_client.Prelude.{
  ◌≡◌, ◌⊎◌, inl, inr, refl, Bool, true, false, not, ◌&&◌, ◌||◌, Option, none, some, List, [], ◌∷◌,
  leb, arith, Bool-cases,
}
use mathlib.Core.Path.{subst, sym, ap, ◌∙◌}
use mathlib.Core.List.{Memᴰ}
use borg_mcp_client.Prelude.Lists.{All, All-filter, All-of_filter, All-weaken, filter, any}
use borg_mcp_client.Text.{Text}
use borg_mcp_client.Wake.Thread.Pools.{
  Holds, filled, newest-of_All, IsNonempty, without_empty-IsNonempty, any-filter, any-and, All-Memᴰ,
  newest_of-Newest, unfilter, without_empty-All, without_empty-turns, without_empty-filled,
  or_all-filled, filled-filter, filter_none,
}
use borg_mcp_client.Wake.Thread.{
  Thread, is_root, is_at, or_all, without_empty, newest, newest_of, fresh_pool, pick_root,
  pick_fresh_thread,
}

-- A thread counts when it has turns and, if any root is at the directory, is there too.
abbrev pub counts : Text → List Thread → Thread → Bool
counts cwd roots t = t.has_turns && (not (any (λ u. is_at cwd u.cwd) roots) || is_at cwd t.cwd)

-- Of several roots the choice is at the directory if any of them is; if any root counts, it has a
-- turn or a preview; and no root that counts has been updated later.
abbrev pub Preferred : Text → List Thread → Thread → Type 0
Preferred cwd roots t =
    ((any (λ u. is_at cwd u.cwd) roots ≡ false) ⊎ (is_at cwd t.cwd ≡ true))
    × ((any (counts cwd roots) roots ≡ false) ⊎ IsNonempty t)
    × All (λ u. (not (counts cwd roots u) || leb u.updated_at t.updated_at) ≡ true) roots

-- The choice is one of the roots: the only one, or one that is preferred.
abbrev pub IsFresh : Text → List Thread → Option Thread → Type 0
IsFresh cwd roots none = roots ≡ []
IsFresh cwd roots (some t) =
    Memᴰ t roots × (is_root t ≡ true) × ((roots ≡ t ∷ []) ⊎ Preferred cwd roots t)

-- Bounds on a pool that reach every root that counts.
abbrev Covers : Text → List Thread → List Thread → Type 0
Covers cwd roots pool =
    (q : Thread → Bool)
    → All (Holds q) pool
    → All (λ u. (not (counts cwd roots u) || q u) ≡ true) roots

-- What a thread of a pool of candidates is.
abbrev IsCandidate : List Thread → Thread → Type 0
IsCandidate roots t = Memᴰ t roots × (is_root t ≡ true)

newest_of-IsFresh :
    (cwd : Text) (roots pool : List Thread)
    → filled pool ≡ true
    → All (IsCandidate roots) pool
    → (any (λ u. is_at cwd u.cwd) roots ≡ false) ⊎ All (λ u. is_at cwd u.cwd ≡ true) pool
    → (any (counts cwd roots) roots ≡ false) ⊎ All IsNonempty pool
    → Covers cwd roots pool
    → IsFresh cwd roots (newest_of pool)
newest_of-IsFresh cwd roots [] h all at shown covers = cc
newest_of-IsFresh cwd roots (t ∷ pool) h (one, all) at shown covers =
    let (member, root) = newest-of_All (IsCandidate roots) t (t ∷ pool) one (one, all) in
    (
      member,
      root,
      inr (
        elim at [
          | inl none_at ↦ inl none_at
          | inr all_at ↦
              inr (newest-of_All (λ u. is_at cwd u.cwd ≡ true) t (t ∷ pool) all_at.0 all_at)
        ],
        elim shown [
          | inl none_counts ↦ inl none_counts
          | inr filled_all ↦ inr (newest-of_All IsNonempty t (t ∷ pool) filled_all.0 filled_all)
        ],
        covers (λ u. leb u.updated_at (newest t (t ∷ pool)).updated_at) (newest_of-Newest t pool),
      ),
    )

-- The pool is of the threads at the directory.
matches-IsFresh :
    (cwd : Text) (roots : List Thread)
    → any (λ u. is_at cwd u.cwd) roots ≡ true
    → All (IsCandidate roots) roots
    → IsFresh cwd roots (newest_of (without_empty (filter (λ u. is_at cwd u.cwd) roots)))
matches-IsFresh cwd roots q all =
    let here : Thread → Bool = λ u. is_at cwd u.cwd in
    let matches = filter here roots in
    newest_of-IsFresh cwd roots (without_empty matches)
      (without_empty-filled matches (filled-filter here roots q))
      (without_empty-All (IsCandidate roots) matches
        (All-filter (IsCandidate roots) here roots all))
      (inr (without_empty-All (Holds here) matches (All-of_filter here roots)))
      (elim (without_empty-IsNonempty matches) [
        | inl no_turns ↦ inl (
            ap (λ some_here. any (λ u. u.has_turns && (not some_here || here u)) roots) q
            ∙ sym (any-filter (λ u. u.has_turns) here roots)
            ∙ no_turns)
        | inr shown ↦ inr shown
      ])
      (λ test k.
        All-weaken (λ u. (not (here u) || (not u.has_turns || test u)) ≡ true)
          (λ u. (not (counts cwd roots u) || test u) ≡ true) roots (λ u l. rw q (ground arith))
          (unfilter here (λ u. not u.has_turns || test u) roots
            (without_empty-turns test matches k)))

-- The pool is of all threads.
all-IsFresh :
    (cwd : Text) (roots : List Thread)
    → any (λ u. is_at cwd u.cwd) roots ≡ false
    → filled roots ≡ true
    → All (IsCandidate roots) roots
    → IsFresh cwd roots (newest_of (without_empty roots))
all-IsFresh cwd roots q h all =
    newest_of-IsFresh cwd roots (without_empty roots) (without_empty-filled roots h)
      (without_empty-All (IsCandidate roots) roots all) (inl q)
      (elim (without_empty-IsNonempty roots) [
        | inl no_turns ↦ inl (
            any-and (λ u. u.has_turns)
              (λ u. not (any (λ u. is_at cwd u.cwd) roots) || is_at cwd u.cwd) roots no_turns)
        | inr shown ↦ inr shown
      ])
      (λ test k.
        All-weaken (λ u. (not u.has_turns || test u) ≡ true)
          (λ u. (not (counts cwd roots u) || test u) ≡ true) roots (λ u l. rw q (ground arith))
          (without_empty-turns test roots k))

fresh_pool-IsFresh :
    (cwd : Text) (roots : List Thread)
    → filled roots ≡ true
    → All (IsCandidate roots) roots
    → IsFresh cwd roots (newest_of (fresh_pool cwd roots))
unfolding fresh_pool
fresh_pool-IsFresh cwd roots h all =
    let here : Thread → Bool = λ u. is_at cwd u.cwd in
    let matches = filter here roots in
    elim (Bool-cases (any here roots)) [
      | inl q ↦
          subst (λ base. IsFresh cwd roots (newest_of (without_empty base)))
            (sym (or_all-filled matches roots (filled-filter here roots q)))
            (matches-IsFresh cwd roots q all)
      | inr q ↦
          subst (λ base. IsFresh cwd roots (newest_of (without_empty (or_all base roots))))
            (sym (filter_none here roots q)) (all-IsFresh cwd roots q h all)
    ]

pick_root-IsFresh :
    (cwd : Text) (roots : List Thread)
    → All (IsCandidate roots) roots
    → IsFresh cwd roots (pick_root cwd roots)
unfolding pick_root
pick_root-IsFresh cwd [] all = refl
pick_root-IsFresh cwd (t ∷ []) ((m, h), all) = (m, h, inl refl)
pick_root-IsFresh cwd (t ∷ u ∷ roots) all = fresh_pool-IsFresh cwd (t ∷ u ∷ roots) refl all

All-and :
    {A : Type 0} (P Q : A → Type 0) (xs : List A) → All P xs → All Q xs → All (λ x. P x × Q x) xs
All-and P Q [] h k = tt
All-and P Q (x ∷ xs) (p, h) (q, k) = ((p, q), All-and P Q xs h k)

-- The thread that is woken is fresh. One is chosen exactly when there is a thread of the user that is
-- neither ephemeral nor a subagent's, and it is one of those. Of several it stands at the drone's
-- directory if any does; it has a turn or a preview if any of those that could be preferred has
-- turns; and none of them with turns was updated later.
pub pick_fresh_thread-IsFresh :
    (cwd : Text) (threads : List Thread)
    → IsFresh cwd (filter is_root threads) (pick_fresh_thread cwd threads)
unfolding pick_fresh_thread
pick_fresh_thread-IsFresh cwd threads =
    let roots = filter is_root threads in
    pick_root-IsFresh cwd roots (
      All-and (λ t. Memᴰ t roots) (Holds is_root) roots (All-Memᴰ roots)
        (All-of_filter is_root threads))
