-- ===== src/Args/LaunchAll/Accepted.antt =====
-- What `parseLaunchAllArgs` (src/parse-launch-all-args.ts) accepts.
use borg_mcp_client.Prelude.{
  ℕ, ◌≡◌, Bool, true, false, ◌||◌, Option, none, some, List, if◌then◌else◌,
}
use borg_mcp_client.Prelude.Result.{ok}
use borg_mcp_client.Prelude.Lists.{drop}
use borg_mcp_client.Text.{Text, lit, ◌==◌, starts_with}
use borg_mcp_client.Args.Loop.{Returns-if, Returns_lem, Keeps, each_arg-Returns}
use borg_mcp_client.Args.Assimilate.{Cli, read_cli}
use borg_mcp_client.Args.LaunchAll.{
  Mode, LaunchAllArgs, no_launch_args, Step, set_cli, read_next, read_mode, set_mode, set_only,
  set_delay, set_cube_name, switch, step, parse_launch_all_args,
}

abbrev pub Holds : (Text → Bool) → Option Text → Type 0
Holds test none = Unit
Holds test (some value) = test value ≡ false

abbrev pub is_flag : Text → Bool
is_flag value = starts_with value (lit "-")

abbrev pub is_long_flag : Text → Bool
is_long_flag value = starts_with value (lit "--")

pub record NoFlags (s : LaunchAllArgs) : Type 0 where
  pub cube_name : Holds is_flag s.cube_name
  pub only : Holds is_long_flag s.only

module _ (s : LaunchAllArgs) (v : NoFlags s) where
  either :
      (test : Bool) (x y : Step)
      → (test ≡ true → Keeps NoFlags x)
      → (test ≡ false → Keeps NoFlags y)
      → Keeps NoFlags (if test then x else y)
  either = Returns-if (λ (r : LaunchAllArgs × Bool). NoFlags r.0)

  set_cli-NoFlags : (used : Bool) (cli : Option Cli) → Keeps NoFlags (set_cli s used cli)
  set_cli-NoFlags used none = tt
  set_cli-NoFlags used (some cli) = record { cube_name = v.cube_name; only = v.only }

  set_mode-NoFlags :
      (next : Option Text) (mode : Option Mode) → Keeps NoFlags (set_mode s next mode)
  set_mode-NoFlags next none = tt
  set_mode-NoFlags next (some mode) = record { cube_name = v.cube_name; only = v.only }

  set_delay-NoFlags : (next : Option Text) (n : Option ℕ) → Keeps NoFlags (set_delay s next n)
  set_delay-NoFlags next none = tt
  set_delay-NoFlags next (some n) = record { cube_name = v.cube_name; only = v.only }

  set_only-NoFlags : (next : Option Text) → Keeps NoFlags (set_only s next)
  set_only-NoFlags none = tt
  set_only-NoFlags (some value) =
      either (is_long_flag value) _ _ (λ n. tt) (λ h. record { cube_name = v.cube_name; only = h })

  set_cube_name-NoFlags :
      (arg : Text) (name : Option Text)
      → is_flag arg ≡ false
      → Keeps NoFlags (set_cube_name s arg name)
  set_cube_name-NoFlags arg none h = record { cube_name = h; only = v.only }
  set_cube_name-NoFlags arg (some name) h = tt

  switch-NoFlags :
      (read_number : Text → Option ℕ) (arg : Text) (next : Option Text)
      → Keeps NoFlags (switch read_number arg next s)
  unfolding switch
  switch-NoFlags read_number arg next =
      either (arg == lit "--mode") _ _ (λ n. set_mode-NoFlags next (read_next read_mode next))
        (λ n.
          either (arg == lit "--only") _ _ (λ n. set_only-NoFlags next)
            (λ n.
              either (arg == lit "--launch-delay") _ _
                (λ n. set_delay-NoFlags next (read_next read_number next))
                (λ n.
                  either (arg == lit "--dry-run") _ _
                    (λ n. record { cube_name = v.cube_name; only = v.only })
                    (λ n.
                      either (arg == lit "--no-attach") _ _
                        (λ n. record { cube_name = v.cube_name; only = v.only })
                        (λ n.
                          either (arg == lit "--yes" || arg == lit "-y") _ _
                            (λ n. record { cube_name = v.cube_name; only = v.only })
                            (λ n.
                              either (arg == lit "--force") _ _
                                (λ n. record { cube_name = v.cube_name; only = v.only })
                                (λ n.
                                  either (starts_with arg (lit "-")) _ _ (λ n. tt)
                                    (λ h. set_cube_name-NoFlags arg s.cube_name h))))))))

  step-NoFlags :
      (read_number : Text → Option ℕ) (arg : Text) (next : Option Text)
      → Keeps NoFlags (step read_number arg next s)
  unfolding step
  step-NoFlags read_number arg next =
      either (arg == lit "--cli") _ _ (λ n. set_cli-NoFlags true (read_next read_cli next))
        (λ n.
          either (starts_with arg (lit "--cli=")) _ _
            (λ n. set_cli-NoFlags false (read_cli (drop 6 arg)))
            (λ n. switch-NoFlags read_number arg next))

-- In arguments that parse, no flag is taken for the cube's name, and no long flag for the value of
-- `--only`, whatever texts are read as numbers.
pub parse_launch_all_args-NoFlags :
    (read_number : Text → Option ℕ) (args : List Text) (s : LaunchAllArgs)
    → parse_launch_all_args read_number args ≡ ok s
    → NoFlags s
unfolding parse_launch_all_args
parse_launch_all_args-NoFlags read_number args s e =
    Returns_lem NoFlags _ s
      (each_arg-Returns NoFlags (step read_number)
        (λ arg next t v. step-NoFlags t v read_number arg next) args no_launch_args
        (record { cube_name = tt; only = tt }))
      e
