-- ===== src/Args/Quickstart/Tests.antt =====
-- Runs of `parseQuickstartArgs` (src/parse-quickstart-args.ts), and the theorem at one.
use borg_mcp_client.Prelude.{◌≡◌, refl, true, some, List, [], ◌∷◌}
use borg_mcp_client.Prelude.Result.{ok, err}
use borg_mcp_client.Text.{Text, lit, ◌==◌, member}
use borg_mcp_client.Args.Loop.{each_arg}
use borg_mcp_client.Args.Quickstart.{
  QuickstartArgs, QuickstartError, is_slug, split_colon, decimal, parse_role, step,
  parse_quickstart_args,
}

runs : Unit {0}
unfolding lit ◌==◌ member each_arg is_slug split_colon decimal parse_role step parse_quickstart_args
runs = tt

abbrev templates : List Text
templates = lit "starter" ∷ lit "software-dev" ∷ []

abbrev given : List Text
given =
    lit "--role"
    ∷ lit "code-reviewer:12"
    ∷ lit "-y"
    ∷ lit "--template"
    ∷ lit "starter"
    ∷ lit "--role"
    ∷ lit "builder"
    ∷ []

abbrev parsed : QuickstartArgs
parsed = record {
  template = some (lit "starter");
  roles =
      record { slug = lit "code-reviewer"; count = 12 }
      ∷ record { slug = lit "builder"; count = 1 }
      ∷ [];
  yes = true;
}

parse_run : parse_quickstart_args templates given ≡ ok parsed
unfolding runs
parse_run = refl

zero_run :
    parse_quickstart_args templates (lit "--role" ∷ lit "builder:0" ∷ [])
    ≡ err (QuickstartError.role_invalid (lit "builder:0"))
unfolding runs
zero_run = refl
