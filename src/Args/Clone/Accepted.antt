-- ===== src/Args/Clone/Accepted.antt =====
-- What `parseCloneArgs` (src/parse-clone-args.ts) accepts.
use borg_mcp_client.Prelude.{
  ◌≡◌, refl, Bool, true, false, ◌&&◌, ◌||◌, Option, none, some, List, [], ◌∷◌, arith, if◌then◌else◌,
}
use borg_mcp_client.Prelude.Result.{Result, ok, err}
use borg_mcp_client.Text.{Text, lit, ◌==◌, starts_with}
use borg_mcp_client.Args.Loop.{each_arg, Returns, Returns-if, Returns_lem, Keeps, each_arg-Returns}
use borg_mcp_client.Args.Names.{is_empty}
use borg_mcp_client.Args.Quickstart.{
  QuickstartArgs, QuickstartError, no_args, parse_quickstart_args,
}
use borg_mcp_client.Args.Quickstart.Valid.{Valid, parse_quickstart_args-Valid}
use borg_mcp_client.Args.Clone.{
  CloneArgs, CloneError, CloneScan, Step, forward, set_positional, step, no_scan, is_some_arg,
  with_quickstart, with_url, after_scan, parse_clone_args, combined, repository_missing,
}

-- an argument that is no option
abbrev pub IsPositional : Option Text → Type 0
IsPositional none = Unit
IsPositional (some arg) = starts_with arg (lit "-") ≡ false

pub record Positional (s : CloneScan) : Type 0 where
  pub url : IsPositional s.repository_url
  pub destination : IsPositional s.destination

pub record Accepted (templates : List Text) (args : CloneArgs) : Type 0 where
  pub url : (is_empty args.repository_url ≡ false) × IsPositional (some args.repository_url)
  pub destination : IsPositional args.destination
  pub checkout : args.checkout_only ≡ true → args.quickstart ≡ no_args
  pub valid : Valid templates args.quickstart

set_positional-Positional :
    (arg : Text) (s : CloneScan) (url destination : Option Text)
    → Positional s
    → starts_with arg (lit "-") ≡ false
    → Keeps Positional (set_positional arg s url destination)
set_positional-Positional arg s none destination p h = record {
  url = h;
  destination = p.destination;
}
set_positional-Positional arg s (some url) none p h = record { url = p.url; destination = h }
set_positional-Positional arg s (some url) (some destination) p h = tt

forward-Positional :
    (s : CloneScan) (arg : Text) (next : Option Text)
    → Positional s
    → Positional (forward s arg next)
forward-Positional s arg none p = record { url = p.url; destination = p.destination }
forward-Positional s arg (some value) p = record { url = p.url; destination = p.destination }

either :
    (test : Bool) (x y : Step)
    → (test ≡ true → Keeps Positional x)
    → (test ≡ false → Keeps Positional y)
    → Keeps Positional (if test then x else y)
either = Returns-if (λ (r : CloneScan × Bool). Positional r.0)

step-Positional :
    (arg : Text) (next : Option Text) (s : CloneScan)
    → Positional s
    → Keeps Positional (step arg next s)
unfolding step
step-Positional arg next s p =
    either (arg == lit "--checkout-only" || arg == lit "--no-launch") _ _
      (λ n.
        either s.checkout_only _ _ (λ m. tt)
          (λ m. record { url = p.url; destination = p.destination }))
      (λ n.
        either (arg == lit "--yes" || arg == lit "-y") _ _ (λ m. forward-Positional s arg none p)
          (λ m.
            either (arg == lit "--template" || arg == lit "--role") _ _
              (λ k. forward-Positional s arg next p)
              (λ k.
                either (starts_with arg (lit "-")) _ _ (λ h. tt)
                  (λ h. set_positional-Positional arg s s.repository_url s.destination p h))))

-- without forwarded options the quickstart is the default one
default_args :
    (templates forwarded : List Text) (args : QuickstartArgs)
    → parse_quickstart_args templates forwarded ≡ ok args
    → is_some_arg forwarded ≡ false
    → args ≡ no_args
unfolding parse_quickstart_args each_arg
default_args templates [] args e h = cc
default_args templates (arg ∷ rest) args e h = cc

with_quickstart-Accepted :
    (templates : List Text) (url : Text) (s : CloneScan)
    (parsed : Result QuickstartError QuickstartArgs)
    → parse_quickstart_args templates s.quickstart_args ≡ parsed
    → is_empty url ≡ false
    → IsPositional (some url)
    → Positional s
    → (s.checkout_only && is_some_arg s.quickstart_args) ≡ false
    → Returns (Accepted templates) (with_quickstart url s parsed)
with_quickstart-Accepted templates url s (err e) q n h p c = tt
with_quickstart-Accepted templates url s (ok args) q n h p c = record {
  url = (n, h);
  destination = p.destination;
  checkout = λ only. default_args templates s.quickstart_args args q (ground (arith, only, c));
  valid = parse_quickstart_args-Valid templates s.quickstart_args args q;
}

with_url-Accepted :
    (templates : List Text) (s : CloneScan) (url : Option Text)
    → IsPositional url
    → Positional s
    → Returns (Accepted templates) (with_url templates s url)
with_url-Accepted templates s none h p = tt
with_url-Accepted templates s (some url) h p =
    Returns-if (Accepted templates) (is_empty url) (err repository_missing) _ (λ n. tt)
      (λ n.
        Returns-if (Accepted templates) (s.checkout_only && is_some_arg s.quickstart_args)
          (err combined) _ (λ c. tt) (λ c. with_quickstart-Accepted templates url s _ refl n h p c))

after_scan-Accepted :
    (templates : List Text) (r : Result CloneError CloneScan)
    → Returns Positional r
    → Returns (Accepted templates) (after_scan templates r)
after_scan-Accepted templates (err e) p = tt
after_scan-Accepted templates (ok s) p = with_url-Accepted templates s s.repository_url p.url p

-- Arguments that parse name a repository and perhaps a destination, neither of which is an option;
-- a checkout without a launch carries no template, no role and no confirmation; and the forwarded
-- options are those of a valid quickstart.
pub parse_clone_args-Accepted :
    (templates args : List Text) (parsed : CloneArgs)
    → parse_clone_args templates args ≡ ok parsed
    → Accepted templates parsed
unfolding parse_clone_args
parse_clone_args-Accepted templates args parsed e =
    Returns_lem (Accepted templates) _ parsed
      (after_scan-Accepted templates (each_arg step args no_scan) (
        each_arg-Returns Positional step step-Positional args no_scan
          (record { url = tt; destination = tt })))
      e
