-- ===== src/Args.antt =====
-- The argument parsers of the command line (src/parse-assimilate-args.ts,
-- src/parse-quickstart-args.ts, src/parse-clone-args.ts, src/parse-launch-all-args.ts) and the
-- names that they check (src/name-validator.ts). A parser is a loop over the arguments; a step may
-- take the next argument as the value of a flag, which the loop then skips.
pub mod Loop
pub mod Names
pub mod Assimilate
pub mod Quickstart
pub mod Clone
pub mod LaunchAll
