-- ===== src/Args/LaunchAll/Tests.antt =====
-- Runs of `parseLaunchAllArgs` (src/parse-launch-all-args.ts), and the theorem at one.
use borg_mcp_client.Prelude.{ℕ, ◌≡◌, refl, true, Option, some, List, [], ◌∷◌}
use borg_mcp_client.Prelude.Result.{ok, err}
use borg_mcp_client.Text.{Text, lit, ◌==◌, starts_with}
use borg_mcp_client.Args.Loop.{each_arg}
use borg_mcp_client.Args.Quickstart.{decimal}
use borg_mcp_client.Args.Assimilate.{Cli, read_cli}
use borg_mcp_client.Args.LaunchAll.{
  Mode, LaunchAllArgs, LaunchAllError, no_launch_args, read_mode, switch, step,
  parse_launch_all_args,
}

runs : Unit {0}
unfolding lit ◌==◌ starts_with each_arg decimal read_cli read_mode switch step parse_launch_all_args
runs = tt

-- a reading of decimal digits
abbrev digits : Text → Option ℕ
digits value = some (decimal 0 value)

abbrev given : List Text
given =
    lit "my-cube"
    ∷ lit "--cli=codex"
    ∷ lit "--mode"
    ∷ lit "tmux"
    ∷ lit "--launch-delay"
    ∷ lit "250"
    ∷ lit "-y"
    ∷ []

abbrev parsed : LaunchAllArgs
parsed = record no_launch_args {
  cube_name = some (lit "my-cube");
  cli = some Cli.codex;
  mode = some Mode.tmux;
  launch_delay_ms = some 250;
  yes = true;
}

parse_run : parse_launch_all_args digits given ≡ ok parsed
unfolding runs
parse_run = refl

only_run :
    parse_launch_all_args digits (lit "--only" ∷ lit "--force" ∷ [])
    ≡ err LaunchAllError.only_missing
unfolding runs
only_run = refl
