-- ===== src/Args/LaunchAll.antt =====
-- `parseLaunchAllArgs` of src/parse-launch-all-args.ts. `read_number` stands for JavaScript's
-- `Number`: what it makes of a text, where that is an integer that is not negative.
pub mod Accepted
mod Tests
use borg_mcp_client.Prelude.{
  ℕ, Bool, true, false, ◌||◌, Option, none, some, List, [], ◌∷◌, if◌then◌else◌,
}
use borg_mcp_client.Prelude.Result.{Result, ok, err}
use borg_mcp_client.Prelude.Lists.{drop}
use borg_mcp_client.Text.{Text, lit, ◌==◌, starts_with}
use borg_mcp_client.Args.Loop.{each_arg}
use borg_mcp_client.Args.Assimilate.{Cli, read_cli}

pub data Mode : Type 0 where
  tmux terminals pastelist : Mode

-- an absent flag is none or false
pub record LaunchAllArgs : Type 0 where
  pub cube_name : Option Text
  pub cli : Option Cli
  pub mode : Option Mode
  pub only : Option Text
  pub dry_run : Bool
  pub no_attach : Bool
  pub yes : Bool
  pub force : Bool
  pub launch_delay_ms : Option ℕ

pub data LaunchAllError : Type 0 where
  cli_invalid only_missing : LaunchAllError
  mode_invalid launch_delay_invalid : Option Text → LaunchAllError
  unknown_flag extra_argument : Text → LaunchAllError

abbrev pub no_launch_args : LaunchAllArgs
no_launch_args = record {
  cube_name = none;
  cli = none;
  mode = none;
  only = none;
  dry_run = false;
  no_attach = false;
  yes = false;
  force = false;
  launch_delay_ms = none;
}

abbrev pub Step : Type 0
Step = Result LaunchAllError (LaunchAllArgs × Bool)

abbrev pub set_cli : LaunchAllArgs → Bool → Option Cli → Step
set_cli s used none = err cli_invalid
set_cli s used (some cli) = ok (record s { cli = some cli }, used)

-- a test or a reading of the next argument, which may be missing
abbrev pub read_next {ℓ} : {A : Type ℓ} → (Text → Option A) → Option Text → Option A
read_next read none = none
read_next read (some value) = read value

unfoldable pub read_mode : Text → Option Mode
unfolding lit ◌==◌
read_mode value =
    if value == lit "tmux"
    then some tmux
    else if value == lit "terminals"
    then some terminals
    else if value == lit "pastelist"
    then some pastelist
    else none

abbrev pub set_mode : LaunchAllArgs → Option Text → Option Mode → Step
set_mode s next none = err (mode_invalid next)
set_mode s next (some mode) = ok (record s { mode = some mode }, true)

abbrev pub set_only : LaunchAllArgs → Option Text → Step
set_only s none = err only_missing
set_only s (some value) =
    if starts_with value (lit "--")
    then err only_missing
    else ok (record s { only = some value }, true)

abbrev pub set_delay : LaunchAllArgs → Option Text → Option ℕ → Step
set_delay s next none = err (launch_delay_invalid next)
set_delay s next (some n) = ok (record s { launch_delay_ms = some n }, true)

abbrev pub set_cube_name : LaunchAllArgs → Text → Option Text → Step
set_cube_name s arg none = ok (record s { cube_name = some arg }, false)
set_cube_name s arg (some name) = err (extra_argument arg)

-- the `switch` on the argument
unfoldable pub switch : (Text → Option ℕ) → Text → Option Text → LaunchAllArgs → Step
unfolding lit ◌==◌ starts_with read_mode
switch read_number arg next s =
    if arg == lit "--mode"
    then set_mode s next (read_next read_mode next)
    else if arg == lit "--only"
    then set_only s next
    else if arg == lit "--launch-delay"
    then set_delay s next (read_next read_number next)
    else if arg == lit "--dry-run"
    then ok (record s { dry_run = true }, false)
    else if arg == lit "--no-attach"
    then ok (record s { no_attach = true }, false)
    else if arg == lit "--yes" || arg == lit "-y"
    then ok (record s { yes = true }, false)
    else if arg == lit "--force"
    then ok (record s { force = true }, false)
    else if starts_with arg (lit "-")
    then err (unknown_flag arg)
    else set_cube_name s arg s.cube_name

-- The body of the loop.
unfoldable pub step : (Text → Option ℕ) → Text → Option Text → LaunchAllArgs → Step
unfolding lit ◌==◌ starts_with read_cli switch
step read_number arg next s =
    if arg == lit "--cli"
    then set_cli s true (read_next read_cli next)
    else if starts_with arg (lit "--cli=")
    then set_cli s false (read_cli (drop 6 arg))
    else switch read_number arg next s

unfoldable pub parse_launch_all_args :
    (Text → Option ℕ) → List Text → Result LaunchAllError LaunchAllArgs
unfolding each_arg step
parse_launch_all_args read_number args = each_arg (step read_number) args no_launch_args
