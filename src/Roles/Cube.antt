-- ===== src/Roles/Cube.antt =====
-- How a cube is named after its repository (src/cube-name.ts). `basename` is that of a POSIX path.
use borg_mcp_client.Prelude.{
  ℕ, zero, suc, ◌≤◌, ◌≡◌, refl, Bool, true, false, not, ◌&&◌, ◌||◌, Option, none, some, [], ◌∷◌,
  arith, leb, ltb, if◌then◌else◌,
}
use borg_mcp_client.Prelude.{◌==◌ as nat_eq}
use borg_mcp_client.Prelude.Lists.{length, take, drop}
use borg_mcp_client.Text.{Text, lit, ◌==◌, starts_with}
use borg_mcp_client.Args.Names.{is_lower, all_of, is_empty}
use borg_mcp_client.Roles.Slug.{
  is_space, is_kept, role_slug, normalize_cube_name, normalize_cube_name_lem,
}

abbrev pub max_url_len : ℕ
max_url_len = 2048

abbrev pub is_control : ℕ → Bool
is_control c = leb c 0x1F || nat_eq c 0x7F

unfoldable pub drop_while : (ℕ → Bool) → Text → Text
drop_while test [] = []
drop_while test (c ∷ s) = let rest = drop_while test s in if test c then rest else c ∷ s

unfoldable pub drop_end : (ℕ → Bool) → Text → Text
drop_end test [] = []
drop_end test (c ∷ s) =
    let rest = drop_end test s in if is_empty rest && test c then [] else c ∷ rest

-- `raw.trim()`
unfoldable pub trim : Text → Text
unfolding drop_while drop_end
trim raw = drop_end is_space (drop_while is_space raw)

abbrev pub is_plain : ℕ → Bool
is_plain c = not (is_control c)

unfoldable pub sanitize_remote_url : Text → Option Text
unfolding trim
sanitize_remote_url raw =
    let trimmed = trim raw in
    if is_empty trimmed || ltb max_url_len (length trimmed)
    then none
    else if all_of is_plain trimmed
    then some trimmed
    else none

-- `/^[a-z]+:\/\//` and `/^[^@\/]*@/`
unfoldable pub strip_protocol : Text → Text
unfolding lit starts_with drop_while
strip_protocol [] = []
strip_protocol (c ∷ s) =
    let rest = drop_while is_lower (c ∷ s) in
    if is_lower c && starts_with rest (lit "://") then drop 3 rest else c ∷ s

abbrev pub is_user_unit : ℕ → Bool
is_user_unit c = not (nat_eq c 0x40 || nat_eq c 0x2F)

unfoldable pub strip_credentials : Text → Text
unfolding lit starts_with drop_while
strip_credentials s =
    let rest = drop_while is_user_unit s in if starts_with rest (lit "@") then drop 1 rest else s

abbrev pub or_sep : Bool → Text → Option Text → Option Text
or_sep is_sep s (some t) = some t
or_sep is_sep s none = if is_sep then some s else none

-- what follows the last separator
unfoldable pub after_last : (ℕ → Bool) → Text → Option Text
after_last test [] = none
after_last test (c ∷ s) = or_sep (test c) s (after_last test s)

abbrev pub is_remote_sep : ℕ → Bool
is_remote_sep c = nat_eq c 0x2F || nat_eq c 0x3A

-- `/\.git$/`
unfoldable pub strip_git : Text → Text
unfolding lit ◌==◌
strip_git [] = []
strip_git (c ∷ s) = let rest = strip_git s in if (c ∷ s) == lit ".git" then [] else c ∷ rest

abbrev pub nonempty : Text → Option Text
nonempty [] = none
nonempty (c ∷ s) = some (c ∷ s)

abbrev pub repo_name : Option Text → Option Text
repo_name none = none
repo_name (some name) = nonempty (strip_git name)

unfoldable pub parse_git_remote : Text → Option Text
unfolding strip_protocol strip_credentials after_last strip_git
parse_git_remote url = repo_name (after_last is_remote_sep (strip_credentials (strip_protocol url)))

abbrev pub is_slash : ℕ → Bool
is_slash c = nat_eq c 0x2F

abbrev pub or_whole : Text → Option Text → Text
or_whole s none = s
or_whole s (some t) = t

unfoldable pub basename : Text → Text
unfolding drop_end after_last
basename path = let s = drop_end is_slash path in or_whole s (after_last is_slash s)

abbrev pub then_name : (Text → Option Text) → Option Text → Option Text
then_name f none = none
then_name f (some t) = f t

-- the name that the remote gives, if it gives one
unfoldable pub remote_name : Option Text → Option Text
unfolding sanitize_remote_url parse_git_remote normalize_cube_name
remote_name url =
    then_name (λ repo. nonempty (normalize_cube_name repo))
      (then_name parse_git_remote (then_name sanitize_remote_url url))

abbrev pub or_root : Text → Option Text → Option Text
or_root project_root none = nonempty (normalize_cube_name (basename project_root))
or_root project_root (some name) = some name

unfoldable pub derive_cube_name : Text → Option Text → Option Text
unfolding basename remote_name
derive_cube_name project_root url = or_root project_root (remote_name url)

-- a valid cube name
abbrev pub IsCubeName : Text → Type 0
IsCubeName name = (is_empty name ≡ false) × (all_of is_kept name ≡ true) × (length name ≤ 64)

abbrev pub Names : Option Text → Type 0
Names none = Unit
Names (some name) = IsCubeName name

length-take : (n : ℕ) (s : Text) → length (take n s) ≤ n
length-take zero s = omega arith
length-take (suc n) [] = omega arith
length-take (suc n) (c ∷ s) = omega (arith, length-take n s)

nonempty-Names : (s : Text) → all_of is_kept s ≡ true → length s ≤ 64 → Names (nonempty s)
nonempty-Names [] h l = tt
nonempty-Names (c ∷ s) h l = (refl, h, l)

normalized-Names : (raw : Text) → Names (nonempty (normalize_cube_name raw))
normalized-Names raw =
    nonempty-Names (normalize_cube_name raw) (normalize_cube_name_lem raw).0
      (unfold normalize_cube_name in length-take 64 (role_slug raw))

then_name-Names :
    (f : Text → Option Text) (t : Option Text) → ((s : Text) → Names (f s)) → Names (then_name f t)
then_name-Names f none k = tt
then_name-Names f (some t) k = k t

or_root-Names :
    (project_root : Text) (name : Option Text) → Names name → Names (or_root project_root name)
or_root-Names project_root none h = normalized-Names (basename project_root)
or_root-Names project_root (some name) h = h

-- Whatever the remote and the project root are, a derived cube name is not empty, has at most 64
-- characters, and they are lower-case letters, digits and hyphens.
pub derive_cube_name-Names :
    (project_root : Text) (url : Option Text) → Names (derive_cube_name project_root url)
unfolding derive_cube_name
derive_cube_name-Names project_root url = or_root-Names project_root (remote_name url) (
    unfold remote_name in
    then_name-Names (λ repo. nonempty (normalize_cube_name repo))
      (then_name parse_git_remote (then_name sanitize_remote_url url)) normalized-Names)
