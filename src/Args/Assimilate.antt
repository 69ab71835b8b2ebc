-- ===== src/Args/Assimilate.antt =====
-- `parseAssimilateArgs` of src/parse-assimilate-args.ts.
pub mod Valid
mod Tests
use borg_mcp_client.Prelude.{
  ℕ, Bool, true, false, not, ◌&&◌, ◌||◌, Option, none, some, List, [], ◌∷◌, if◌then◌else◌,
}
use borg_mcp_client.Prelude.{◌==◌ as nat_eq}
use borg_mcp_client.Prelude.Result.{Result, ok, err}
use borg_mcp_client.Prelude.Lists.{drop, length}
use borg_mcp_client.Text.{Text, lit, ◌==◌, starts_with, member}
use borg_mcp_client.Args.Loop.{each_arg}
use borg_mcp_client.Args.Names.{is_lower, is_upper, is_digit, all_of, is_empty, validate_name}

pub data Cli : Type 0 where
  claude codex opencode : Cli

-- `AssimilateFlags`; an absent flag is none or false.
pub record Parsed : Type 0 where
  pub role : Option Text
  pub worktree : Option Text
  pub template : Option Text
  pub no_template : Bool
  pub cube_name : Option Text
  pub here : Bool
  pub force : Bool
  pub no_borg_approval_override : Bool
  pub server : Option Text
  pub enroll : Bool
  pub yes : Bool
  pub cli : Option Cli
  pub model : Option Text

pub data ParseError : Type 0 where
  worktree_missing template_missing cube_name_missing host_missing : ParseError
  cli_invalid model_missing enrollment_positional_input template_conflict : ParseError
  model_invalid unknown_flag : Text → ParseError
  extra_argument : (arg role : Text) → ParseError

abbrev pub no_flags : Parsed
no_flags = record {
  role = none;
  worktree = none;
  template = none;
  no_template = false;
  cube_name = none;
  here = false;
  force = false;
  no_borg_approval_override = false;
  server = none;
  enroll = false;
  yes = false;
  cli = none;
  model = none;
}

-- the result of a step, with whether the next argument was used
abbrev pub Step : Type 0
Step = Result ParseError (Parsed × Bool)

-- a flag whose value is the next argument, which passes the test
abbrev pub with_value : (Text → Bool) → ParseError → (Text → Parsed) → Option Text → Step
with_value test error set none = err error
with_value test error set (some value) = if test value then ok (set value, true) else err error

-- a flag whose value follows `=`
abbrev pub inline_value : (Text → Bool) → ParseError → (Text → Parsed) → Text → Step
inline_value test error set value = if test value then ok (set value, false) else err error

abbrev pub is_filled : Text → Bool
is_filled value = not (is_empty value)

-- a host that is no flag
unfoldable pub is_host : Text → Bool
unfolding lit starts_with
is_host value = is_filled value && not (starts_with value (lit "-"))

unfoldable pub read_cli : Text → Option Cli
unfolding lit ◌==◌
read_cli value =
    if value == lit "claude"
    then some claude
    else if value == lit "codex"
    then some codex
    else if value == lit "opencode"
    then some opencode
    else none

abbrev pub set_cli : Parsed → Bool → Option Cli → Step
set_cli s used none = err cli_invalid
set_cli s used (some cli) = ok (record s { cli = some cli }, used)

abbrev pub next_cli : Parsed → Option Text → Step
next_cli s none = err cli_invalid
next_cli s (some value) = set_cli s true (read_cli value)

-- `[A-Za-z0-9._:\/-]`
abbrev pub is_model_unit : ℕ → Bool
is_model_unit c =
    is_lower c
    || is_upper c
    || is_digit c
    || nat_eq c 0x2E
    || nat_eq c 0x5F
    || nat_eq c 0x3A
    || nat_eq c 0x2F
    || nat_eq c 0x2D

-- `/^claude:[A-Za-z0-9._:\/-]+$/`
unfoldable pub is_model : Text → Bool
unfolding lit starts_with
is_model value =
    starts_with value (lit "claude:")
    && is_filled (drop 7 value)
    && all_of is_model_unit (drop 7 value)

abbrev pub set_model : Parsed → Bool → Text → Step
set_model s used value =
    if is_model value then ok (record s { model = some value }, used) else err (model_invalid value)

abbrev pub next_model : Parsed → Option Text → Step
next_model s none = err model_missing
next_model s (some value) = if is_empty value then err model_missing else set_model s true value

-- `arg.slice(arg.indexOf('=') + 1)`, where `=` occurs
unfoldable pub after_equals : Text → Text
after_equals [] = []
after_equals (c ∷ s) = let rest = after_equals s in if nat_eq c 0x3D then s else rest

-- a positional argument: the role, once
abbrev pub set_role : Bool → Text → Parsed → Option Text → Step
set_role enrolling arg s (some role) =
    if enrolling then err enrollment_positional_input else err (extra_argument arg role)
set_role enrolling arg s none =
    if enrolling && not (validate_name arg)
    then err enrollment_positional_input
    else ok (record s { role = some arg }, false)

-- The flags that may be written with `=`, the others, and the positional argument.
unfoldable pub late_step : Bool → Text → Option Text → Parsed → Step
unfolding lit starts_with ◌==◌ read_cli is_model after_equals validate_name
late_step enrolling arg next s =
    if arg == lit "--cli"
    then next_cli s next
    else if starts_with arg (lit "--cli=")
    then set_cli s false (read_cli (drop 6 arg))
    else if arg == lit "--model" || arg == lit "--backend"
    then next_model s next
    else if starts_with arg (lit "--model=") || starts_with arg (lit "--backend=")
    then set_model s false (after_equals arg)
    else if starts_with arg (lit "--")
    then err (unknown_flag arg)
    else set_role enrolling arg s s.role

-- The body of the loop.
unfoldable pub step : Bool → Text → Option Text → Parsed → Step
unfolding lit starts_with ◌==◌ is_host late_step
step enrolling arg next s =
    if arg == lit "--worktree"
    then with_value is_filled worktree_missing (λ v. record s { worktree = some v }) next
    else if arg == lit "--template"
    then with_value is_filled template_missing (λ v. record s { template = some v }) next
    else if arg == lit "--no-template"
    then ok (record s { no_template = true }, false)
    else if arg == lit "--cube-name"
    then with_value is_filled cube_name_missing (λ v. record s { cube_name = some v }) next
    else if arg == lit "--here"
    then ok (record s { here = true }, false)
    else if arg == lit "--force"
    then ok (record s { force = true }, false)
    else if arg == lit "--no-borg-approval-override"
    then ok (record s { no_borg_approval_override = true }, false)
    else if arg == lit "--host"
    then with_value is_host host_missing (λ v. record s { server = some v }) next
    else if starts_with arg (lit "--host=")
    then inline_value is_filled host_missing (λ v. record s { server = some v }) (drop 7 arg)
    else if arg == lit "--enroll"
    then ok (record s { enroll = true }, false)
    else if arg == lit "--yes" || arg == lit "-y"
    then ok (record s { yes = true }, false)
    else late_step enrolling arg next s

-- the check after the loop
abbrev pub both_templates : Option Text → Bool → Bool
both_templates none no_template = false
both_templates (some template) no_template = no_template

abbrev pub check_templates : Result ParseError Parsed → Result ParseError Parsed
check_templates (err e) = err e
check_templates (ok s) =
    if both_templates s.template s.no_template then err template_conflict else ok s

unfoldable pub parse_assimilate_args : List Text → Result ParseError Parsed
unfolding lit member each_arg step
parse_assimilate_args args =
    check_templates (each_arg (step (member (lit "--enroll") args)) args no_flags)
