-- ===== src/Representative/Ledger/Unique.antt =====
-- Request ids are unique in the ledger, and every transaction keeps them so.
use borg_mcp_client.Prelude.{◌≡◌, refl, Bool, none, [], ◌∷◌, ◌++◌, arith, Bool-cases, inl, inr}
use borg_mcp_client.Prelude.Lists.{filter}
use borg_mcp_client.Text.{Text, ◌==◌, eq_iff}
use borg_mcp_client.Representative.Ledger.{RequestRecord, Ledger, find_id, update_id, remove_id}
use borg_mcp_client.Representative.Ledger.Find.{KeepsId, find_id-update_id, find_id-append}

abbrev pub Unique : Ledger → Type 0
Unique [] = Unit
Unique (r ∷ rs) = (find_id r.request_id rs ≡ none) × Unique rs

pub Unique-update_id :
    (id : Text) (f : RequestRecord → RequestRecord) (rs : Ledger)
    → KeepsId f
    → Unique rs
    → Unique (update_id id f rs)
unfolding update_id
Unique-update_id id f [] k u = tt
Unique-update_id id f (x ∷ rs) k (h, u) = elim (Bool-cases (x.request_id == id)) [
  | inl same ↦ rw same (rw (k x) h, u)
  | inr other ↦ rw other (
    rw (find_id-update_id id x.request_id f rs k) (ground (arith, h)),
    Unique-update_id id f rs k u,
  )
]

pub Unique-append :
    (rs : Ledger) (r : RequestRecord)
    → Unique rs
    → find_id r.request_id rs ≡ none
    → Unique (rs ++ r ∷ [])
Unique-append [] r u h = (unfold find_id in refl, tt)
Unique-append (x ∷ rs) r (hx, u) h = (
  rw (find_id-append x.request_id rs r) (
      unfold find_id in
      ground (arith, eq_iff x.request_id r.request_id, eq_iff r.request_id x.request_id)),
  Unique-append rs r u (unfold find_id in ground (arith)),
)

find_id-remove_id-none :
    (id j : Text) (rs : Ledger) → find_id j rs ≡ none → find_id j (remove_id id rs) ≡ none
unfolding find_id remove_id
find_id-remove_id-none id j [] h = refl
find_id-remove_id-none id j (x ∷ rs) h = ground (arith, find_id-remove_id-none id j rs)

pub Unique-remove_id : (id : Text) (rs : Ledger) → Unique rs → Unique (remove_id id rs)
unfolding remove_id
Unique-remove_id id [] u = tt
Unique-remove_id id (x ∷ rs) (h, u) = elim (Bool-cases (x.request_id == id)) [
  | inl same ↦ rw same u
  | inr other ↦ rw other (find_id-remove_id-none id x.request_id rs h, Unique-remove_id id rs u)
]

pub find_id-filter-none :
    (p : RequestRecord → Bool) (j : Text) (rs : Ledger)
    → find_id j rs ≡ none
    → find_id j (filter p rs) ≡ none
unfolding find_id
find_id-filter-none p j [] h = refl
find_id-filter-none p j (x ∷ rs) h = ground (arith, find_id-filter-none p j rs)

pub Unique-filter : (p : RequestRecord → Bool) (rs : Ledger) → Unique rs → Unique (filter p rs)
Unique-filter p [] u = tt
Unique-filter p (x ∷ rs) (h, u) = elim (Bool-cases (p x)) [
  | inl keep ↦ rw keep (find_id-filter-none p x.request_id rs h, Unique-filter p rs u)
  | inr gone ↦ rw gone (Unique-filter p rs u)
]
