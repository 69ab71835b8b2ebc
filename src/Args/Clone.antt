-- ===== src/Args/Clone.antt =====
-- `parseCloneArgs` of src/parse-clone-args.ts. The redaction of secrets in the error texts is left
-- out: an error carries the argument.
pub mod Accepted
mod Tests
use borg_mcp_client.Prelude.{
  Bool, true, false, ◌&&◌, ◌||◌, Option, none, some, List, [], ◌∷◌, ◌++◌, if◌then◌else◌,
}
use borg_mcp_client.Prelude.Result.{Result, ok, err}
use borg_mcp_client.Text.{Text, lit, ◌==◌, starts_with}
use borg_mcp_client.Args.Loop.{each_arg}
use borg_mcp_client.Args.Names.{is_empty}
use borg_mcp_client.Args.Quickstart.{QuickstartArgs, QuickstartError, parse_quickstart_args}

pub record CloneArgs : Type 0 where
  pub repository_url : Text
  pub destination : Option Text
  pub checkout_only : Bool
  pub quickstart : QuickstartArgs

pub data CloneError : Type 0 where
  checkout_only_repeated extra_argument repository_missing combined : CloneError
  option_unknown : Text → CloneError
  quickstart_error : QuickstartError → CloneError

-- the variables of the loop
pub record CloneScan : Type 0 where
  pub repository_url : Option Text
  pub destination : Option Text
  pub checkout_only : Bool
  pub quickstart_args : List Text

abbrev pub Step : Type 0
Step = Result CloneError (CloneScan × Bool)

abbrev pub forward : CloneScan → Text → Option Text → CloneScan
forward s arg none = record s { quickstart_args = s.quickstart_args ++ arg ∷ [] }
forward s arg (some value) = record s { quickstart_args = s.quickstart_args ++ arg ∷ value ∷ [] }

abbrev pub set_positional : Text → CloneScan → Option Text → Option Text → Step
set_positional arg s none destination = ok (record s { repository_url = some arg }, false)
set_positional arg s (some url) none = ok (record s { destination = some arg }, false)
set_positional arg s (some url) (some destination) = err extra_argument

-- The body of the loop.
unfoldable pub step : Text → Option Text → CloneScan → Step
unfolding lit ◌==◌ starts_with
step arg next s =
    if arg == lit "--checkout-only" || arg == lit "--no-launch"
    then (if s.checkout_only
        then err checkout_only_repeated
        else ok (record s { checkout_only = true }, false))
    else if arg == lit "--yes" || arg == lit "-y"
    then ok (forward s arg none, false)
    else if arg == lit "--template" || arg == lit "--role"
    then ok (forward s arg next, true)
    else if starts_with arg (lit "-")
    then err (option_unknown arg)
    else set_positional arg s s.repository_url s.destination

abbrev pub no_scan : CloneScan
no_scan = record {
  repository_url = none;
  destination = none;
  checkout_only = false;
  quickstart_args = [];
}

abbrev pub is_some_arg : List Text → Bool
is_some_arg [] = false
is_some_arg (arg ∷ args) = true

abbrev pub with_quickstart :
    Text → CloneScan → Result QuickstartError QuickstartArgs → Result CloneError CloneArgs
with_quickstart url s (err e) = err (quickstart_error e)
with_quickstart url s (ok args) = ok (record {
  repository_url = url;
  destination = s.destination;
  checkout_only = s.checkout_only;
  quickstart = args;
})

-- what follows the loop
abbrev pub with_url : List Text → CloneScan → Option Text → Result CloneError CloneArgs
with_url templates s none = err repository_missing
with_url templates s (some url) =
    if is_empty url
    then err repository_missing
    else if s.checkout_only && is_some_arg s.quickstart_args
    then err combined
    else with_quickstart url s (parse_quickstart_args templates s.quickstart_args)

abbrev pub after_scan : List Text → Result CloneError CloneScan → Result CloneError CloneArgs
after_scan templates (err e) = err e
after_scan templates (ok s) = with_url templates s s.repository_url

unfoldable pub parse_clone_args : List Text → List Text → Result CloneError CloneArgs
unfolding each_arg step parse_quickstart_args
parse_clone_args templates args = after_scan templates (each_arg step args no_scan)
