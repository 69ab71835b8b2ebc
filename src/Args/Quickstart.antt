-- ===== src/Args/Quickstart.antt =====
-- `parseQuickstartArgs` of src/parse-quickstart-args.ts. The names of the templates come from the
-- package borgmcp-shared and are an argument.
pub mod Valid
mod Tests
use borg_mcp_client.Prelude.{
  ℕ, ◌+◌, ◌*◌, ◌-◌, Bool, true, false, not, ◌&&◌, ◌||◌, Option, none, some, List, [], ◌∷◌, ◌++◌,
  leb, is_some, if◌then◌else◌,
}
use borg_mcp_client.Prelude.{◌==◌ as nat_eq}
use borg_mcp_client.Prelude.Result.{Result, ok, err}
use borg_mcp_client.Text.{Text, lit, ◌==◌, member}
use borg_mcp_client.Args.Loop.{each_arg}
use borg_mcp_client.Args.Names.{is_lower, is_digit, all_of, is_empty}

pub record RoleRequest : Type 0 where
  pub slug : Text
  pub count : ℕ

pub record QuickstartArgs : Type 0 where
  pub template : Option Text
  pub roles : List RoleRequest
  pub yes : Bool

pub data QuickstartError : Type 0 where
  template_missing template_repeated role_missing : QuickstartError
  template_unknown role_invalid option_unknown : Text → QuickstartError

-- `[a-z0-9]`
abbrev pub is_slug_unit : ℕ → Bool
is_slug_unit c = is_lower c || is_digit c

-- `[a-z0-9]+(?:-[a-z0-9]+)*`; the first argument tells whether a hyphen may not follow
unfoldable pub is_slug : Bool → Text → Bool
is_slug after_hyphen [] = not after_hyphen
is_slug after_hyphen (c ∷ s) =
    if nat_eq c 0x2D then not after_hyphen && is_slug true s else is_slug_unit c && is_slug false s

-- the text before the first colon, and the text after it
unfoldable pub split_colon : Text → Text × Option Text
split_colon [] = ([], none)
split_colon (c ∷ s) =
    let (slug, count) = split_colon s in if nat_eq c 0x3A then ([], some s) else (c ∷ slug, count)

-- `Number` on decimal digits
unfoldable pub decimal : ℕ → Text → ℕ
decimal total [] = total
decimal total (c ∷ s) = decimal (total * 10 + (c - 0x30)) s

-- `[1-9]\d*`
abbrev pub is_count : Text → Bool
is_count [] = false
is_count (c ∷ s) = leb 0x31 c && leb c 0x39 && all_of is_digit s

abbrev pub max_safe_integer : ℕ
max_safe_integer = 9007199254740991

abbrev pub with_count : Text → Option Text → Option RoleRequest
with_count slug none = some (record { slug = slug; count = 1 })
with_count slug (some digits) =
    if is_count digits && leb (decimal 0 digits) max_safe_integer
    then some (record { slug = slug; count = decimal 0 digits })
    else none

-- `parseRole`
unfoldable pub parse_role : Text → Option RoleRequest
unfolding is_slug split_colon decimal
parse_role value =
    let (slug, count) = split_colon value in
    if is_slug true slug then with_count slug count else none

abbrev pub Step : Type 0
Step = Result QuickstartError (QuickstartArgs × Bool)

abbrev pub set_template : List Text → Option Text → QuickstartArgs → Step
set_template templates none s = err template_missing
set_template templates (some value) s =
    if is_empty value
    then err template_missing
    else if not (member value templates)
    then err (template_unknown value)
    else if is_some s.template
    then err template_repeated
    else ok (record s { template = some value }, true)

abbrev pub push_role : Text → Option RoleRequest → QuickstartArgs → Step
push_role value none s = err (role_invalid value)
push_role value (some role) s = ok (record s { roles = s.roles ++ role ∷ [] }, true)

abbrev pub add_role : Option Text → QuickstartArgs → Step
add_role none s = err role_missing
add_role (some value) s =
    if is_empty value then err role_missing else push_role value (parse_role value) s

-- The body of the loop.
unfoldable pub step : List Text → Text → Option Text → QuickstartArgs → Step
unfolding lit ◌==◌ member parse_role
step templates arg next s =
    if arg == lit "--yes" || arg == lit "-y"
    then ok (record s { yes = true }, false)
    else if arg == lit "--template"
    then set_template templates next s
    else if arg == lit "--role"
    then add_role next s
    else err (option_unknown arg)

abbrev pub no_args : QuickstartArgs
no_args = record { template = none; roles = []; yes = false }

unfoldable pub parse_quickstart_args : List Text → List Text → Result QuickstartError QuickstartArgs
unfolding each_arg step
parse_quickstart_args templates args = each_arg (step templates) args no_args
