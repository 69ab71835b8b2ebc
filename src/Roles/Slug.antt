-- ===== src/Roles/Slug.antt =====
-- `roleSlug` and `matchRoleByName` of src/role-resolver.ts, and `normalizeCubeName` of
-- src/cube-name.ts. Of `toLowerCase` only what survives the last replacement is written out: the
-- ASCII letters and the two other characters whose lower case holds one.
use borg_mcp_client.Prelude.{
  ℕ, ◌+◌, ◌≡◌, refl, ap, ◌∙◌, Bool, true, false, ◌&&◌, ◌||◌, Option, List, [], ◌∷◌, ◌++◌, arith,
  leb, if◌then◌else◌, zero, suc,
}
use borg_mcp_client.Prelude.{◌==◌ as nat_eq}
use borg_mcp_client.Prelude.Lists.{filter, find, take}
use borg_mcp_client.Text.{Text, ◌==◌}
use borg_mcp_client.Args.Names.{is_lower, is_upper, is_digit, all_of}

-- U+0130 becomes an i and a combining dot, U+212A (Kelvin) a k
abbrev pub lower_unit : ℕ → Text
lower_unit c =
    if is_upper c
    then (c + 0x20) ∷ []
    else if nat_eq c 0x130
    then 0x69 ∷ 0x307 ∷ []
    else if nat_eq c 0x212A
    then 0x6B ∷ []
    else c ∷ []

unfoldable pub to_lower : Text → Text
to_lower [] = []
to_lower (c ∷ s) = lower_unit c ++ to_lower s

-- `\s`
abbrev pub is_space : ℕ → Bool
is_space c =
    (leb 0x9 c && leb c 0xD)
    || nat_eq c 0x20
    || nat_eq c 0xA0
    || nat_eq c 0x1680
    || (leb 0x2000 c && leb c 0x200A)
    || nat_eq c 0x2028
    || nat_eq c 0x2029
    || nat_eq c 0x202F
    || nat_eq c 0x205F
    || nat_eq c 0x3000
    || nat_eq c 0xFEFF

abbrev pub is_separator : ℕ → Bool
is_separator c = nat_eq c 0x5F || is_space c

-- `.replace(/[_\s]+/g, '-')`; the first argument tells whether a run goes on
unfoldable pub hyphenate : Bool → Text → Text
hyphenate in_run [] = []
hyphenate in_run (c ∷ s) =
    let rest = hyphenate (is_separator c) s in
    if is_separator c then (if in_run then rest else 0x2D ∷ rest) else c ∷ rest

-- `[a-z0-9-]`
abbrev pub is_kept : ℕ → Bool
is_kept c = is_lower c || is_digit c || nat_eq c 0x2D

unfoldable pub role_slug : Text → Text
unfolding to_lower hyphenate
role_slug raw = filter is_kept (hyphenate false (to_lower raw))

unfoldable pub normalize_cube_name : Text → Text
unfolding role_slug
normalize_cube_name raw = take 64 (role_slug raw)

pub record Role : Type 0 where
  pub id : Text
  pub name : Text
  pub is_default : Bool
  pub is_mandatory : Bool
  pub is_human_seat : Bool
  pub is_queen : Bool

unfoldable pub match_role_by_name : List Role → Text → Option Role
unfolding role_slug ◌==◌
match_role_by_name roles query =
    let slug = role_slug query in find (λ (r : Role). role_slug r.name == slug) roles

kept_unit : (c : ℕ) → is_kept c ≡ true → lower_unit c ≡ c ∷ []
kept_unit c h = ground arith

kept_no_separator : (c : ℕ) → is_kept c ≡ true → is_separator c ≡ false
kept_no_separator c h = ground arith

to_lower_kept : (s : Text) → all_of is_kept s ≡ true → to_lower s ≡ s
unfolding to_lower
to_lower_kept [] h = refl
to_lower_kept (c ∷ s) h =
    let here : is_kept c ≡ true = ground arith in
    rw (kept_unit c here) (ap (λ t. c ∷ t) (to_lower_kept s (ground arith)))

hyphenate_kept : (s : Text) → all_of is_kept s ≡ true → hyphenate false s ≡ s
unfolding hyphenate
hyphenate_kept [] h = refl
hyphenate_kept (c ∷ s) h =
    let here : is_kept c ≡ true = ground arith in
    rw (kept_no_separator c here) (ap (λ t. c ∷ t) (hyphenate_kept s (ground arith)))

filter_kept : (s : Text) → all_of is_kept s ≡ true → filter is_kept s ≡ s
filter_kept [] h = refl
filter_kept (c ∷ s) h =
    let here : is_kept c ≡ true = ground arith in
    rw here (ap (λ t. c ∷ t) (filter_kept s (ground arith)))

kept_filter : (s : Text) → all_of is_kept (filter is_kept s) ≡ true
kept_filter [] = refl
kept_filter (c ∷ s) = ground (arith, kept_filter s)

kept_take : (n : ℕ) (s : Text) → all_of is_kept s ≡ true → all_of is_kept (take n s) ≡ true
kept_take zero s h = refl
kept_take (suc n) [] h = refl
kept_take (suc n) (c ∷ s) h = ground (arith, kept_take n s)

pub role_slug_of_kept : (s : Text) → all_of is_kept s ≡ true → role_slug s ≡ s
unfolding role_slug
role_slug_of_kept s h =
    ap (λ t. filter is_kept (hyphenate false t)) (to_lower_kept s h)
    ∙ ap (λ t. filter is_kept t) (hyphenate_kept s h)
    ∙ filter_kept s h

-- A slug has only lower-case letters, digits and hyphens, so it is safe in a path, and it is its
-- own slug.
pub role_slug_lem :
    (raw : Text)
    → (all_of is_kept (role_slug raw) ≡ true) × (role_slug (role_slug raw) ≡ role_slug raw)
role_slug_lem raw =
    let kept : all_of is_kept (role_slug raw) ≡ true =
      unfold role_slug in kept_filter (hyphenate false (to_lower raw)) in
    (kept, role_slug_of_kept (role_slug raw) kept)

take-take : (n : ℕ) (s : Text) → take n (take n s) ≡ take n s
take-take zero s = refl
take-take (suc n) [] = refl
take-take (suc n) (c ∷ s) = ap (λ t. c ∷ t) (take-take n s)

-- A normalized cube name has only lower-case letters, digits and hyphens, and normalizing it again
-- changes nothing.
pub normalize_cube_name_lem :
    (raw : Text)
    → (all_of is_kept (normalize_cube_name raw) ≡ true)
      × (normalize_cube_name (normalize_cube_name raw) ≡ normalize_cube_name raw)
normalize_cube_name_lem raw =
    let kept : all_of is_kept (normalize_cube_name raw) ≡ true =
      unfold normalize_cube_name in kept_take 64 (role_slug raw) (role_slug_lem raw).0 in
    let slug = role_slug_of_kept (normalize_cube_name raw) kept in
    (kept, unfold normalize_cube_name in ap (λ t. take 64 t) slug ∙ take-take 64 (role_slug raw))

-- A role is found by its slug as it is by any spelling of its name with that slug.
pub match_role_by_name_slug :
    (roles : List Role) (query : Text)
    → match_role_by_name roles (role_slug query) ≡ match_role_by_name roles query
unfolding match_role_by_name
match_role_by_name_slug roles query =
    ap (λ slug. find (λ (r : Role). role_slug r.name == slug) roles) (role_slug_lem query).1
