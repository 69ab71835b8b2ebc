-- ===== src/Args/Clone/Tests.antt =====
-- Runs of `parseCloneArgs` (src/parse-clone-args.ts), and the theorem at one.
use borg_mcp_client.Prelude.{◌≡◌, refl, true, some, List, [], ◌∷◌}
use borg_mcp_client.Prelude.Result.{ok, err}
use borg_mcp_client.Text.{Text, lit, ◌==◌, starts_with}
use borg_mcp_client.Args.Loop.{each_arg}
use borg_mcp_client.Args.Quickstart.{no_args, parse_quickstart_args}
use borg_mcp_client.Args.Clone.{CloneArgs, CloneError, step, parse_clone_args}

runs : Unit {0}
unfolding lit ◌==◌ starts_with each_arg parse_quickstart_args step parse_clone_args
runs = tt

abbrev given : List Text
given = lit "https://host/r.git" ∷ lit "--no-launch" ∷ lit "dir" ∷ []

abbrev parsed : CloneArgs
parsed = record {
  repository_url = lit "https://host/r.git";
  destination = some (lit "dir");
  checkout_only = true;
  quickstart = no_args;
}

parse_run : parse_clone_args [] given ≡ ok parsed
unfolding runs
parse_run = refl

combined_run :
    parse_clone_args [] (lit "url" ∷ lit "--no-launch" ∷ lit "--yes" ∷ []) ≡ err CloneError.combined
unfolding runs
combined_run = refl
