-- ===== src/Wake/Thread/Pools.antt =====
-- The newest thread of a pool, and pools without empty threads (src/codex-wake-resolve.ts).
use borg_mcp_client.Prelude.{
  ◌≤◌, ◌≡◌, inl, inr, refl, Bool, true, false, not, ◌&&◌, ◌||◌, ◌⊎◌, List, [], ◌∷◌, ltb, leb,
  if◌then◌else◌, arith, Bool-cases,
}
use mathlib.Core.Path.{subst}
use mathlib.Core.List.{Memᴰ}
use borg_mcp_client.Prelude.Lists.{
  All, All-filter, All-of_filter, All-weaken, filter, filter_kept, filter_dropped, any,
}
use borg_mcp_client.Wake.Thread.{Thread, or_all, without_empty, newest}

abbrev pub Holds : (Thread → Bool) → Thread → Type 0
Holds test t = test t ≡ true

pub newest-of_All :
    (P : Thread → Type 0) (best : Thread) (pool : List Thread)
    → P best
    → All P pool
    → P (newest best pool)
newest-of_All P best [] h all = h
newest-of_All P best (t ∷ pool) h (k, all) = elim (Bool-cases (ltb best.updated_at t.updated_at)) [
  | inl q ↦ rw q (newest-of_All P t pool k all)
  | inr q ↦ rw q (newest-of_All P best pool h all)
]

-- No thread of the list has been updated after `t`.
abbrev pub Newest : Thread → List Thread → Type 0
Newest t pool = All (λ u. leb u.updated_at t.updated_at ≡ true) pool

-- The newer of two, the first if they are equal.
abbrev pub newer : Thread → Thread → Thread
newer best t = if ltb best.updated_at t.updated_at then t else best

newer_bound :
    (best t : Thread)
    → (best.updated_at ≤ (newer best t).updated_at) × (t.updated_at ≤ (newer best t).updated_at)
newer_bound best t = ground arith

newest-Newest :
    (best : Thread) (pool : List Thread)
    → (best.updated_at ≤ (newest best pool).updated_at) × Newest (newest best pool) pool
newest-Newest best [] = (omega arith, tt)
newest-Newest best (t ∷ pool) =
    let (h, all) = newest-Newest (newer best t) pool in
    let (k, l) = newer_bound best t in (omega arith, (ground arith, all))

pub unfilter :
    (test q : Thread → Bool) (xs : List Thread)
    → All (Holds q) (filter test xs)
    → All (λ u. (not (test u) || q u) ≡ true) xs
unfilter test q [] h = tt
unfilter test q (x ∷ xs) h = elim (Bool-cases (test x)) [
  | inl p ↦
      let (k, all) = subst (All (Holds q)) (filter_kept test x xs p) h in
      (ground arith, unfilter test q xs all)
  | inr p ↦ (rw p refl, unfilter test q xs (subst (All (Holds q)) (filter_dropped test x xs p) h))
]

-- What is shown of a pool for its newest thread.
pub newest_of-Newest : (t : Thread) (pool : List Thread) → Newest (newest t (t ∷ pool)) (t ∷ pool)
newest_of-Newest t pool = (newest-Newest t (t ∷ pool)).1

pub without_empty-All :
    (P : Thread → Type 0) (pool : List Thread) → All P pool → All P (without_empty pool)
without_empty-All P pool h = elim (Bool-cases (any (λ t. t.has_turns) pool)) [
  | inl q ↦ rw q (All-filter P (λ t. t.has_turns || t.has_preview) pool h)
  | inr q ↦ rw q h
]

-- A thread that shows something: a turn or a preview.
abbrev pub IsNonempty : Thread → Type 0
IsNonempty t = (t.has_turns || t.has_preview) ≡ true

-- A pool with turns is left without empty threads.
pub without_empty-IsNonempty :
    (pool : List Thread)
    → (any (λ t. t.has_turns) pool ≡ false) ⊎ All IsNonempty (without_empty pool)
without_empty-IsNonempty pool = elim (Bool-cases (any (λ t. t.has_turns) pool)) [
  | inl q ↦ inr (rw q (All-of_filter (λ t. t.has_turns || t.has_preview) pool))
  | inr q ↦ inl q
]

pub any-filter :
    (test other : Thread → Bool) (xs : List Thread)
    → any test (filter other xs) ≡ any (λ u. test u && other u) xs
any-filter test other [] = refl
any-filter test other (x ∷ xs) = ground (arith, any-filter test other xs)

pub any-and :
    (test other : Thread → Bool) (xs : List Thread)
    → any test xs ≡ false
    → any (λ u. test u && other u) xs ≡ false
any-and test other [] h = refl
any-and test other (x ∷ xs) h = ground (arith, any-and test other xs)

pub All-Memᴰ : (xs : List Thread) → All (λ u. Memᴰ u xs) xs
All-Memᴰ [] = tt
All-Memᴰ (x ∷ xs) = (
  Memᴰ.head refl,
  All-weaken (λ u. Memᴰ u xs) (λ u. Memᴰ u (x ∷ xs)) xs (λ u m. Memᴰ.tail m) (All-Memᴰ xs),
)

-- What holds of the pool without empty threads holds of the threads with turns.
pub without_empty-turns :
    (q : Thread → Bool) (pool : List Thread)
    → All (Holds q) (without_empty pool)
    → All (λ u. (not u.has_turns || q u) ≡ true) pool
without_empty-turns q pool h = elim (Bool-cases (any (λ t. t.has_turns) pool)) [
  | inl p ↦
      All-weaken (λ u. (not (u.has_turns || u.has_preview) || q u) ≡ true)
        (λ u. (not u.has_turns || q u) ≡ true) pool (λ u k. ground arith)
        (unfilter (λ t. t.has_turns || t.has_preview) q pool (rw p at h))
  | inr p ↦
      All-weaken (Holds q) (λ u. (not u.has_turns || q u) ≡ true) pool (λ u k. ground arith)
        (rw p at h)
]

abbrev pub filled : List Thread → Bool
filled [] = false
filled (t ∷ pool) = true

filter-filled :
    (pool : List Thread)
    → any (λ t. t.has_turns) pool ≡ true
    → filled (filter (λ t. t.has_turns || t.has_preview) pool) ≡ true
filter-filled [] h = h
filter-filled (t ∷ pool) h = ground (arith, filter-filled pool)

pub without_empty-filled :
    (pool : List Thread) → filled pool ≡ true → filled (without_empty pool) ≡ true
without_empty-filled pool h = elim (Bool-cases (any (λ t. t.has_turns) pool)) [
  | inl q ↦ rw q (filter-filled pool q)
  | inr q ↦ rw q h
]

pub or_all-filled :
    (matches all : List Thread) → filled matches ≡ true → or_all matches all ≡ matches
or_all-filled [] all h = cc
or_all-filled (t ∷ matches) all h = refl

pub filled-filter :
    (test : Thread → Bool) (xs : List Thread) → any test xs ≡ true → filled (filter test xs) ≡ true
filled-filter test [] h = h
filled-filter test (x ∷ xs) h = ground (arith, filled-filter test xs)

pub filter_none :
    (test : Thread → Bool) (xs : List Thread) → any test xs ≡ false → filter test xs ≡ []
filter_none test [] h = refl
filter_none test (x ∷ xs) h = ground (arith, filter_none test xs)
