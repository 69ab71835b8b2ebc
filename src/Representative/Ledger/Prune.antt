-- ===== src/Representative/Ledger/Prune.antt =====
-- What `pruneSettled` of src/representative-store.ts keeps, and how much.
use borg_mcp_client.Prelude.{
  ℕ, zero, suc, ◌-◌, ◌≤◌, ◌<◌, ◌≡◌, refl, Bool, true, false, not, none, some, List, [], ◌∷◌, map,
  arith, leb, Bool-cases, inl, inr, ◌⊎◌,
}
use borg_mcp_client.Prelude.Lists.{length, take, filter, any}
use borg_mcp_client.Text.{Text, ◌==◌, eq_iff, eq_refl}
use borg_mcp_client.Representative.Ledger.{
  RequestRecord, Ledger, find_id, has, is_settled, is_unresolved, dropped_ids, prune_settled,
  settled_request_limit,
}
use borg_mcp_client.Representative.Ledger.Find.{find_id-filter-has}
use borg_mcp_client.Representative.Ledger.Unique.{Unique, Unique-filter, find_id-filter-none}

-- There are more than 200 settled records, and the id is of one of the first in excess of 200.
abbrev pub IsExcess : Text → Ledger → Type 0
IsExcess j rs =
    let settled = filter is_settled rs in
    (200 < length settled)
    × (any (λ id. id == j) (map (λ r. r.request_id) (take (length settled - 200) settled)) ≡ true)

-- Whatever is pruned, a record is kept as it is, or it is gone and was in excess.
pub find_id-prune_settled-IsExcess :
    (j : Text) (rs : Ledger)
    → (find_id j (prune_settled rs) ≡ find_id j rs)
      ⊎ ((find_id j (prune_settled rs) ≡ none) × IsExcess j rs)
unfolding prune_settled
find_id-prune_settled-IsExcess j rs =
    let settled = filter is_settled rs in
    let ids = dropped_ids settled in
    elim (Bool-cases (leb (length settled) settled_request_limit)) [
      | inl few ↦ inl (rw few refl)
      | inr many ↦ elim (Bool-cases (has ids j)) [
        | inl dropped ↦ inr (
          rw many (ground (arith, dropped, find_id-filter-has j ids rs)),
          (ground (arith, many), dropped),
        )
        | inr stays ↦ inl (rw many (ground (arith, stays, find_id-filter-has j ids rs)))
      ]
    ]

pub Unique-prune_settled : (rs : Ledger) → Unique rs → Unique (prune_settled rs)
unfolding prune_settled
Unique-prune_settled rs u =
    elim (Bool-cases (leb (length (filter is_settled rs)) settled_request_limit)) [
      | inl few ↦ rw few u
      | inr many ↦ rw many (Unique-filter _ rs u)
    ]

-- an id of which the ledger holds no settled record is not among those dropped
has-map-take :
    (j : Text) (n : ℕ) (rs : Ledger)
    → find_id j rs ≡ none
    → has (map (λ r. r.request_id) (take n rs)) j ≡ false
unfolding find_id
has-map-take j zero rs h = refl
has-map-take j (suc n) [] h = refl
has-map-take j (suc n) (x ∷ rs) h = ground (arith, has-map-take j n rs)

find_id-filter_unresolved :
    (j : Text) (rs : Ledger) (r : RequestRecord)
    → Unique rs
    → find_id j rs ≡ some r
    → is_settled r ≡ false
    → find_id j (filter is_settled rs) ≡ none
unfolding find_id
find_id-filter_unresolved j [] r u h s = cc
find_id-filter_unresolved j (x ∷ rs) r (hx, u) h s = elim (Bool-cases (x.request_id == j)) [
  | inl same ↦
      let e : find_id j rs ≡ none = rw ((eq_iff x.request_id j).0 same) at hx in
      ground (arith, find_id-filter-none is_settled j rs e)
  | inr other ↦ ground (arith, find_id-filter_unresolved j rs r u)
]

settled_of_unresolved : (r : RequestRecord) → is_unresolved r.state ≡ true → is_settled r ≡ false
settled_of_unresolved r h = ground arith

leb-false : {a b : ℕ} → leb a b ≡ false → b ≤ a
leb-false h = ground arith

-- An unresolved record is never dropped.
pub find_id-prune_settled_unresolved :
    (j : Text) (rs : Ledger) (r : RequestRecord)
    → Unique rs
    → find_id j rs ≡ some r
    → is_unresolved r.state ≡ true
    → find_id j (prune_settled rs) ≡ some r
unfolding prune_settled
find_id-prune_settled_unresolved j rs r u h s =
    let settled = filter is_settled rs in
    let kept =
      has-map-take j (length settled - settled_request_limit) settled
        (find_id-filter_unresolved j rs r u h (settled_of_unresolved r s)) in
    ground (arith, kept, find_id-filter-has j (dropped_ids settled) rs)

filter_swap :
    (p q : RequestRecord → Bool) (rs : Ledger) → filter p (filter q rs) ≡ filter q (filter p rs)
filter_swap p q [] = refl
filter_swap p q (x ∷ rs) = ground (arith, filter_swap p q rs)

length-filter : (p : RequestRecord → Bool) (rs : Ledger) → length (filter p rs) ≤ length rs
length-filter p [] = omega arith
length-filter p (x ∷ rs) = ground (arith, length-filter p rs)

-- Filtering out the first `n` ids, and perhaps more, leaves at most the rest.
length-filter-has :
    (n : ℕ) (rs : Ledger) (ids : List Text)
    → ((j : Text) → has (map (λ r. r.request_id) (take n rs)) j ≡ true → has ids j ≡ true)
    → length (filter (λ r. not (has ids r.request_id)) rs) ≤ length rs - n
length-filter-has zero rs ids h = omega (arith, length-filter (λ r. not (has ids r.request_id)) rs)
length-filter-has (suc n) [] ids h = omega arith
length-filter-has (suc n) (x ∷ rs) ids h =
    let gone = h x.request_id (rw (eq_refl x.request_id) refl) in
    let rest = length-filter-has n rs ids (λ j k. h j (ground (arith, k))) in
    rw gone (omega (arith, rest))

-- After every transaction the ledger holds at most 200 settled records.
pub prune_settled_bound :
    (rs : Ledger) → length (filter is_settled (prune_settled rs)) ≤ settled_request_limit
unfolding prune_settled
prune_settled_bound rs =
    let settled = filter is_settled rs in
    let ids = dropped_ids settled in
    elim (Bool-cases (leb (length settled) settled_request_limit)) [
      | inl few ↦ rw few (ground (arith, few))
      | inr many ↦ rw many (
          rw (filter_swap is_settled (λ r. not (has ids r.request_id)) rs) (
            omega (
              arith,
              length-filter-has (length settled - settled_request_limit) settled ids (λ j k. k),
              leb-false many,
            )))
    ]
