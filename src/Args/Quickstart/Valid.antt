-- ===== src/Args/Quickstart/Valid.antt =====
-- What `parseQuickstartArgs` (src/parse-quickstart-args.ts) accepts.
use borg_mcp_client.Prelude.{
  ℕ, ◌+◌, ◌*◌, ◌-◌, ◌≤◌, ◌≡◌, refl, Bool, true, false, not, ◌&&◌, ◌||◌, Option, none, some, List,
  [], ◌∷◌, arith, leb, is_some, if◌then◌else◌,
}
use borg_mcp_client.Prelude.Result.{ok}
use borg_mcp_client.Prelude.Lists.{All, All-append}
use borg_mcp_client.Text.{Text, lit, ◌==◌, member}
use borg_mcp_client.Args.Loop.{Returns-if, Returns_lem, Keeps, each_arg-Returns}
use borg_mcp_client.Args.Names.{is_empty}
use borg_mcp_client.Args.Quickstart.{
  RoleRequest, QuickstartArgs, is_slug, is_count, decimal, split_colon, with_count,
  max_safe_integer, parse_role, Step, set_template, push_role, add_role, step, no_args,
  parse_quickstart_args,
}

-- a role slug, at least once and at most as often as a safe integer says
pub record ValidRole (role : RoleRequest) : Type 0 where
  pub slug : is_slug true role.slug ≡ true
  pub least : 1 ≤ role.count
  pub most : role.count ≤ max_safe_integer

abbrev pub IsKnown : List Text → Option Text → Type 0
IsKnown templates none = Unit
IsKnown templates (some value) = member value templates ≡ true

pub record Valid (templates : List Text) (s : QuickstartArgs) : Type 0 where
  pub template : IsKnown templates s.template
  pub roles : All ValidRole s.roles

decimal_grows : (total : ℕ) (s : Text) → total ≤ decimal total s
unfolding decimal
decimal_grows total [] = omega arith
decimal_grows total (c ∷ s) = omega (arith, decimal_grows (total * 10 + (c - 0x30)) s)

is_count-decimal : (digits : Text) → is_count digits ≡ true → 1 ≤ decimal 0 digits
unfolding decimal
is_count-decimal [] h = cc
is_count-decimal (c ∷ s) h = ground (arith, decimal_grows (0 * 10 + (c - 0x30)) s)

-- an option that is absent or has the property
abbrev pub Holds : {T : Type 0} → (T → Type 0) → Option T → Type 0
Holds P none = Unit
Holds P (some t) = P t

Holds-if :
    (test : Bool) (role : RoleRequest)
    → (test ≡ true → ValidRole role)
    → Holds ValidRole (if test then some role else none)
Holds-if true role k = k refl
Holds-if false role k = tt

with_count-Valid :
    (slug : Text) (count : Option Text)
    → is_slug true slug ≡ true
    → Holds ValidRole (with_count slug count)
with_count-Valid slug none h = record { slug = h; least = omega arith; most = omega arith }
with_count-Valid slug (some digits) h =
    Holds-if (is_count digits && leb (decimal 0 digits) max_safe_integer) _ (λ k. record {
      slug = h;
      least = is_count-decimal digits (ground arith);
      most = ground arith;
    })

parsed_role :
    (test : Bool) (role : Option RoleRequest)
    → (test ≡ true → Holds ValidRole role)
    → Holds ValidRole (if test then role else none)
parsed_role true role k = k refl
parsed_role false role k = tt

parse_role-Valid : (value : Text) → Holds ValidRole (parse_role value)
unfolding parse_role
parse_role-Valid value =
    let slug = (split_colon value).0 in
    parsed_role (is_slug true slug) (with_count slug (split_colon value).1)
      (with_count-Valid slug (split_colon value).1)

module _ (templates : List Text) (s : QuickstartArgs) (v : Valid templates s) where
  either :
      (test : Bool) (x y : Step)
      → (test ≡ true → Keeps (Valid templates) x)
      → (test ≡ false → Keeps (Valid templates) y)
      → Keeps (Valid templates) (if test then x else y)
  either = Returns-if (λ (r : QuickstartArgs × Bool). Valid templates r.0)

  set_template-Keeps :
      (next : Option Text) → Keeps (Valid templates) (set_template templates next s)
  set_template-Keeps none = tt
  set_template-Keeps (some value) =
      either (is_empty value) _ _ (λ n. tt)
        (λ n.
          either (not (member value templates)) _ _ (λ n. tt)
            (λ known.
              either (is_some s.template) _ _ (λ n. tt)
                (λ n. record { template = ground (arith, known); roles = v.roles })))

  push_role-Keeps :
      (value : Text) (role : Option RoleRequest)
      → Holds ValidRole role
      → Keeps (Valid templates) (push_role value role s)
  push_role-Keeps value none h = tt
  push_role-Keeps value (some role) h = record {
    template = v.template;
    roles = All-append ValidRole s.roles (role ∷ []) v.roles (h, tt);
  }

  add_role-Keeps : (next : Option Text) → Keeps (Valid templates) (add_role next s)
  add_role-Keeps none = tt
  add_role-Keeps (some value) =
      either (is_empty value) _ _ (λ n. tt)
        (λ n. push_role-Keeps value (parse_role value) (parse_role-Valid value))

  step-Keeps :
      (arg : Text) (next : Option Text) → Keeps (Valid templates) (step templates arg next s)
  unfolding step
  step-Keeps arg next =
      either (arg == lit "--yes" || arg == lit "-y") _ _
        (λ n. record { template = v.template; roles = v.roles })
        (λ n.
          either (arg == lit "--template") _ _ (λ n. set_template-Keeps next)
            (λ n. either (arg == lit "--role") _ _ (λ n. add_role-Keeps next) (λ n. tt)))

-- Arguments that parse name a known template or none, and every role request has a slug of
-- lower-case words joined by hyphens and a count between 1 and the largest safe integer.
pub parse_quickstart_args-Valid :
    (templates args : List Text) (s : QuickstartArgs)
    → parse_quickstart_args templates args ≡ ok s
    → Valid templates s
unfolding parse_quickstart_args
parse_quickstart_args-Valid templates args s e =
    Returns_lem (Valid templates) _ s
      (each_arg-Returns (Valid templates) (step templates)
        (λ arg next t v. step-Keeps templates t v arg next) args no_args
        (record { template = tt; roles = tt }))
      e
