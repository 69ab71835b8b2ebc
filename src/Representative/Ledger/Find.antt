-- ===== src/Representative/Ledger/Find.antt =====
-- How `find_id` sees the ledger operations of src/representative-core.ts.
use borg_mcp_client.Prelude.{
  ◌≡◌, refl, ap, false, not, Option, none, some, List, [], ◌∷◌, ◌++◌, arith, if◌then◌else◌,
  Bool-cases, inl, inr,
}
use borg_mcp_client.Prelude.Lists.{filter}
use borg_mcp_client.Text.{Text, ◌==◌, eq_iff}
use borg_mcp_client.Representative.Ledger.{
  RequestRecord, Ledger, find_id, update_id, remove_id, has,
}

abbrev pub or_else {ℓ} : {A : Type ℓ} → Option A → Option A → Option A
or_else none b = b
or_else (some a) b = some a

pub find_id-request_id :
    (id : Text) (rs : Ledger) (r : RequestRecord) → find_id id rs ≡ some r → r.request_id ≡ id
unfolding find_id
find_id-request_id id [] r h = cc
find_id-request_id id (x ∷ rs) r h =
    ground (arith, eq_iff x.request_id id, find_id-request_id id rs r)

abbrev pub KeepsId : (RequestRecord → RequestRecord) → Type 0
KeepsId f = (r : RequestRecord) → (f r).request_id ≡ r.request_id

abbrev pub apply_to : (RequestRecord → RequestRecord) → Option RequestRecord → Option RequestRecord
apply_to f none = none
apply_to f (some r) = some (f r)

pub find_id-update_id :
    (id j : Text) (f : RequestRecord → RequestRecord) (rs : Ledger)
    → KeepsId f
    → find_id j (update_id id f rs) ≡ (if id == j then apply_to f (find_id j rs) else find_id j rs)
unfolding find_id update_id
find_id-update_id id j f [] k = ground arith
find_id-update_id id j f (x ∷ rs) k = ground (
  arith,
  k x,
  eq_iff x.request_id id,
  eq_iff x.request_id j,
  eq_iff id j,
  eq_iff (f x).request_id j,
  find_id-update_id id j f rs k,
)

pub find_id-append :
    (j : Text) (rs : Ledger) (r : RequestRecord)
    → find_id j (rs ++ r ∷ []) ≡ or_else (find_id j rs) (if r.request_id == j then some r else none)
unfolding find_id
find_id-append j [] r = ground arith
find_id-append j (x ∷ rs) r = ground (arith, find_id-append j rs r)

-- another id is not touched by a removal
pub find_id-remove_id_ne :
    (id j : Text) (rs : Ledger) → (id == j) ≡ false → find_id j (remove_id id rs) ≡ find_id j rs
unfolding find_id remove_id
find_id-remove_id_ne id j [] h = refl
find_id-remove_id_ne id j (x ∷ rs) h = ground (
  arith,
  eq_iff x.request_id id,
  eq_iff x.request_id j,
  eq_iff id j,
  find_id-remove_id_ne id j rs h,
)

pub find_id-filter-has :
    (j : Text) (ids : List Text) (rs : Ledger)
    → find_id j (filter (λ r. not (has ids r.request_id)) rs)
      ≡ (if has ids j then none else find_id j rs)
unfolding find_id
find_id-filter-has j ids [] = ground arith
find_id-filter-has j ids (x ∷ rs) = elim (Bool-cases (x.request_id == j)) [
  | inl same ↦
      let e : has ids x.request_id ≡ has ids j = ap (has ids) ((eq_iff x.request_id j).0 same) in
      ground (arith, e, find_id-filter-has j ids rs)
  | inr other ↦ ground (arith, find_id-filter-has j ids rs)
]
