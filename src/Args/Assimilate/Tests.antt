-- ===== src/Args/Assimilate/Tests.antt =====
-- Runs of `parseAssimilateArgs` (src/parse-assimilate-args.ts), and the theorem at one.
use borg_mcp_client.Prelude.{◌≡◌, refl, true, some, List, [], ◌∷◌}
use borg_mcp_client.Prelude.Result.{ok, err}
use borg_mcp_client.Text.{Text, lit, ◌==◌, starts_with, member}
use borg_mcp_client.Args.Loop.{each_arg}
use borg_mcp_client.Args.Names.{validate_name}
use borg_mcp_client.Args.Assimilate.{
  Cli, Parsed, ParseError, no_flags, step, late_step, is_host, is_model, read_cli, after_equals,
  parse_assimilate_args,
}
use borg_mcp_client.Args.Assimilate.Valid.{Accepted, parse_assimilate_args-Accepted}

runs : Unit {0}
unfolding lit ◌==◌ starts_with member each_arg validate_name step late_step is_host is_model
    read_cli after_equals parse_assimilate_args
runs = tt

abbrev given : List Text
given = lit "builder" ∷ lit "--enroll" ∷ lit "--model=claude:opus" ∷ lit "--cli" ∷ lit "codex" ∷ []

abbrev parsed : Parsed
parsed = record no_flags {
  role = some (lit "builder");
  enroll = true;
  model = some (lit "claude:opus");
  cli = some Cli.codex;
}

parse_run : parse_assimilate_args given ≡ ok parsed
unfolding runs
parse_run = refl

conflict_run :
    parse_assimilate_args (lit "--template" ∷ lit "starter" ∷ lit "--no-template" ∷ [])
    ≡ err ParseError.template_conflict
unfolding runs
conflict_run = refl

host_run : parse_assimilate_args (lit "--host" ∷ lit "--yes" ∷ []) ≡ err ParseError.host_missing
unfolding runs
host_run = refl

parse_assimilate_args-Accepted_example : Accepted (member (lit "--enroll") given) parsed
parse_assimilate_args-Accepted_example = parse_assimilate_args-Accepted given parsed parse_run
