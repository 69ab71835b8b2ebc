-- ===== src/Args/Assimilate/Valid.antt =====
-- What `parseAssimilateArgs` (src/parse-assimilate-args.ts) accepts.
use borg_mcp_client.Prelude.{
  ◌≡◌, refl, Bool, true, false, not, ◌&&◌, ◌||◌, Option, none, some, List, arith, if◌then◌else◌,
}
use borg_mcp_client.Prelude.Result.{Result, ok, err}
use borg_mcp_client.Prelude.Lists.{drop}
use borg_mcp_client.Text.{Text, lit, ◌==◌, starts_with, member}
use borg_mcp_client.Args.Loop.{each_arg, Returns, Returns-if, Returns_lem, Keeps, each_arg-Returns}
use borg_mcp_client.Args.Names.{is_empty, validate_name}
use borg_mcp_client.Args.Assimilate.{
  Cli, Parsed, ParseError, host_missing, no_flags, Step, with_value, inline_value, is_filled,
  is_host, read_cli, set_cli, next_cli, is_model, set_model, next_model, after_equals, set_role,
  late_step, step, both_templates, check_templates, parse_assimilate_args,
}

-- an option that is absent or passes the test
abbrev pub Holds : (Text → Bool) → Option Text → Type 0
Holds test none = Unit
Holds test (some value) = test value ≡ true

-- Every name is filled, the model is a model descriptor, and the role is a valid name if the
-- arguments ask for an enrollment.
pub record Valid (enrolling : Bool) (s : Parsed) : Type 0 where
  pub worktree : Holds is_filled s.worktree
  pub template : Holds is_filled s.template
  pub cube_name : Holds is_filled s.cube_name
  pub server : Holds is_filled s.server
  pub model : Holds is_model s.model
  pub role : enrolling ≡ true → Holds validate_name s.role

with_value-Keeps :
    (P : Parsed → Type 0) (test : Text → Bool) (error : ParseError) (set : Text → Parsed)
    (next : Option Text)
    → ((value : Text) → test value ≡ true → P (set value))
    → Keeps P (with_value test error set next)
with_value-Keeps P test error set none k = tt
with_value-Keeps P test error set (some value) k =
    Returns-if (λ (r : Parsed × Bool). P r.0) (test value) (ok (set value, true)) (err error)
      (k value) (λ n. tt)

inline_value-Keeps :
    (P : Parsed → Type 0) (test : Text → Bool) (error : ParseError) (set : Text → Parsed)
    (value : Text)
    → (test value ≡ true → P (set value))
    → Keeps P (inline_value test error set value)
inline_value-Keeps P test error set value k =
    Returns-if (λ (r : Parsed × Bool). P r.0) (test value) (ok (set value, false)) (err error) k
      (λ n. tt)

is_host-filled : (value : Text) → is_host value ≡ true → is_filled value ≡ true
unfolding is_host
is_host-filled value h = ground arith

module _ (enrolling : Bool) (s : Parsed) (v : Valid enrolling s) where
  -- a step under an `if` keeps validity if both branches do
  either :
      (test : Bool) (x y : Step)
      → (test ≡ true → Keeps (Valid enrolling) x)
      → (test ≡ false → Keeps (Valid enrolling) y)
      → Keeps (Valid enrolling) (if test then x else y)
  either = Returns-if (λ (r : Parsed × Bool). Valid enrolling r.0)

  set_cli-Keeps : (used : Bool) (cli : Option Cli) → Keeps (Valid enrolling) (set_cli s used cli)
  set_cli-Keeps used none = tt
  set_cli-Keeps used (some cli) = record {
    worktree = v.worktree;
    template = v.template;
    cube_name = v.cube_name;
    server = v.server;
    model = v.model;
    role = v.role;
  }

  next_cli-Keeps : (next : Option Text) → Keeps (Valid enrolling) (next_cli s next)
  next_cli-Keeps none = tt
  next_cli-Keeps (some value) = set_cli-Keeps true (read_cli value)

  set_model-Keeps : (used : Bool) (value : Text) → Keeps (Valid enrolling) (set_model s used value)
  set_model-Keeps used value =
      either (is_model value) _ _
        (λ h. record {
          worktree = v.worktree;
          template = v.template;
          cube_name = v.cube_name;
          server = v.server;
          model = h;
          role = v.role;
        })
        (λ n. tt)

  next_model-Keeps : (next : Option Text) → Keeps (Valid enrolling) (next_model s next)
  next_model-Keeps none = tt
  next_model-Keeps (some value) =
      either (is_empty value) _ _ (λ n. tt) (λ n. set_model-Keeps true value)

  set_role-Keeps :
      (arg : Text) (role : Option Text) → Keeps (Valid enrolling) (set_role enrolling arg s role)
  set_role-Keeps arg (some role) = either enrolling _ _ (λ n. tt) (λ n. tt)
  set_role-Keeps arg none =
      either (enrolling && not (validate_name arg)) _ _ (λ n. tt)
        (λ n. record {
          worktree = v.worktree;
          template = v.template;
          cube_name = v.cube_name;
          server = v.server;
          model = v.model;
          role = λ h. ground (arith, n, h);
        })

  late_step-Keeps :
      (arg : Text) (next : Option Text) → Keeps (Valid enrolling) (late_step enrolling arg next s)
  unfolding late_step
  late_step-Keeps arg next =
      either (arg == lit "--cli") _ _ (λ n. next_cli-Keeps next)
        (λ n.
          either (starts_with arg (lit "--cli=")) _ _
            (λ n. set_cli-Keeps false (read_cli (drop 6 arg)))
            (λ n.
              either (arg == lit "--model" || arg == lit "--backend") _ _
                (λ n. next_model-Keeps next)
                (λ n.
                  either (starts_with arg (lit "--model=") || starts_with arg (lit "--backend=")) _
                    _ (λ n. set_model-Keeps false (after_equals arg))
                    (λ n.
                      either (starts_with arg (lit "--")) _ _ (λ n. tt)
                        (λ n. set_role-Keeps arg s.role)))))

  -- a flag without a value leaves the checked fields as they are
  same_fields :
      (t : Parsed)
      → t.worktree ≡ s.worktree
      → t.template ≡ s.template
      → t.cube_name ≡ s.cube_name
      → t.server ≡ s.server
      → t.model ≡ s.model
      → t.role ≡ s.role
      → Valid enrolling t
  same_fields t w e c h m r = record {
    worktree = rw w v.worktree;
    template = rw e v.template;
    cube_name = rw c v.cube_name;
    server = rw h v.server;
    model = rw m v.model;
    role = λ k. rw r (v.role k);
  }

  valued :
      (test : Text → Bool) (error : ParseError) (set : Text → Parsed) (next : Option Text)
      → ((value : Text) → test value ≡ true → Valid enrolling (set value))
      → Keeps (Valid enrolling) (with_value test error set next)
  valued = with_value-Keeps (Valid enrolling)

  worktree-Valid :
      (value : Text) → is_filled value ≡ true → Valid enrolling (record s { worktree = some value })
  worktree-Valid = (λ value h. record {
    worktree = h;
    template = v.template;
    cube_name = v.cube_name;
    server = v.server;
    model = v.model;
    role = v.role;
  })

  template-Valid :
      (value : Text) → is_filled value ≡ true → Valid enrolling (record s { template = some value })
  template-Valid = (λ value h. record {
    worktree = v.worktree;
    template = h;
    cube_name = v.cube_name;
    server = v.server;
    model = v.model;
    role = v.role;
  })

  cube_name-Valid :
      (value : Text)
      → is_filled value ≡ true
      → Valid enrolling (record s { cube_name = some value })
  cube_name-Valid = (λ value h. record {
    worktree = v.worktree;
    template = v.template;
    cube_name = h;
    server = v.server;
    model = v.model;
    role = v.role;
  })

  server-Valid :
      (value : Text) → is_filled value ≡ true → Valid enrolling (record s { server = some value })
  server-Valid = (λ value h. record {
    worktree = v.worktree;
    template = v.template;
    cube_name = v.cube_name;
    server = h;
    model = v.model;
    role = v.role;
  })

  step-Keeps :
      (arg : Text) (next : Option Text) → Keeps (Valid enrolling) (step enrolling arg next s)
  unfolding step
  step-Keeps arg next =
      either (arg == lit "--worktree") _ _ (λ n. valued is_filled _ _ next worktree-Valid)
        (λ n.
          either (arg == lit "--template") _ _ (λ n. valued is_filled _ _ next template-Valid)
            (λ n.
              either (arg == lit "--no-template") _ _
                (λ n. same_fields _ refl refl refl refl refl refl)
                (λ n.
                  either (arg == lit "--cube-name") _ _
                    (λ n. valued is_filled _ _ next cube_name-Valid)
                    (λ n.
                      either (arg == lit "--here") _ _
                        (λ n. same_fields _ refl refl refl refl refl refl)
                        (λ n.
                          either (arg == lit "--force") _ _
                            (λ n. same_fields _ refl refl refl refl refl refl)
                            (λ n.
                              either (arg == lit "--no-borg-approval-override") _ _
                                (λ n. same_fields _ refl refl refl refl refl refl)
                                (λ n.
                                  either (arg == lit "--host") _ _
                                    (λ n.
                                      valued is_host _ _ next
                                        (λ value h. server-Valid value (is_host-filled value h)))
                                    (λ n.
                                      either (starts_with arg (lit "--host=")) _ _
                                        (λ n.
                                          inline_value-Keeps (Valid enrolling) is_filled
                                            host_missing (λ x. record s { server = some x })
                                            (drop 7 arg) (server-Valid (drop 7 arg)))
                                        (λ n.
                                          either (arg == lit "--enroll") _ _
                                            (λ n. same_fields _ refl refl refl refl refl refl)
                                            (λ n.
                                              either (arg == lit "--yes" || arg == lit "-y") _ _
                                                (λ n. same_fields _ refl refl refl refl refl refl)
                                                (λ n. late_step-Keeps arg next)))))))))))

no_flags-Valid : (enrolling : Bool) → Valid enrolling no_flags
no_flags-Valid enrolling = record {
  worktree = tt;
  template = tt;
  cube_name = tt;
  server = tt;
  model = tt;
  role = λ e. tt;
}

-- what the whole parser guarantees
abbrev pub Accepted : Bool → Parsed → Type 0
Accepted enrolling s = Valid enrolling s × (both_templates s.template s.no_template ≡ false)

check_templates-Accepted :
    (enrolling : Bool) (r : Result ParseError Parsed)
    → Returns (Valid enrolling) r
    → Returns (Accepted enrolling) (check_templates r)
check_templates-Accepted enrolling (err e) v = tt
check_templates-Accepted enrolling (ok s) v =
    Returns-if (Accepted enrolling) (both_templates s.template s.no_template)
      (err ParseError.template_conflict) (ok s) (λ n. tt) (λ n. (v, n))

-- Arguments that parse never give both a template and no template; every value given for a
-- worktree, a template, a cube name or a host is not empty; a model is a model descriptor; and if
-- `--enroll` occurs among the arguments, the role is a valid name.
pub parse_assimilate_args-Accepted :
    (args : List Text) (s : Parsed)
    → parse_assimilate_args args ≡ ok s
    → Accepted (member (lit "--enroll") args) s
unfolding parse_assimilate_args
parse_assimilate_args-Accepted args s e =
    let enrolling = member (lit "--enroll") args in
    Returns_lem (Accepted enrolling) _ s
      (check_templates-Accepted enrolling (each_arg (step enrolling) args no_flags) (
        each_arg-Returns (Valid enrolling) (step enrolling)
          (λ arg next t v. step-Keeps enrolling t v arg next) args no_flags
          (no_flags-Valid enrolling)))
      e
