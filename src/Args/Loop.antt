-- ===== src/Args/Loop.antt =====
-- The loop `for (let i = 0; i < rawArgs.length; i += 1)` of the argument parsers, in which a step
-- that used `rawArgs[++i]` says so by `true`.
use borg_mcp_client.Prelude.{
  ◌≡◌, Bool, true, false, Option, none, some, List, [], ◌∷◌, if◌then◌else◌, refl, sym,
}
use borg_mcp_client.Prelude.Result.{Result, ok, err}
use borg_mcp_client.Text.{Text}

-- what holds of the state that a step or a parser returns
abbrev pub Returns : {E T : Type 0} → (T → Type 0) → Result E T → Type 0
Returns P (err e) = Unit
Returns P (ok t) = P t

pub Returns-if :
    {E T : Type 0} (P : T → Type 0) (test : Bool) (x y : Result E T)
    → (test ≡ true → Returns P x)
    → (test ≡ false → Returns P y)
    → Returns P (if test then x else y)
Returns-if P true x y f g = f refl
Returns-if P false x y f g = g refl

pub Returns_lem :
    {E T : Type 0} (P : T → Type 0) (r : Result E T) (t : T) → Returns P r → r ≡ ok t → P t
Returns_lem P (err e) t h k = cc
Returns_lem P (ok s) t h k = let same : s ≡ t = cc in rw (sym same) h

module _ {E S : Type 0} where
  abbrev pub take_step : (S → Result E S) → (S → Result E S) → Result E (S × Bool) → Result E S
  take_step skip go (err e) = err e
  take_step skip go (ok (s, true)) = skip s
  take_step skip go (ok (s, false)) = go s

  unfoldable pub each_arg :
      (Text → Option Text → S → Result E (S × Bool)) → List Text → S → Result E S
  each_arg step [] s = ok s
  each_arg step (arg ∷ []) s = take_step ok ok (step arg none s)
  each_arg step (arg ∷ next ∷ rest) s =
      take_step (each_arg step rest) (each_arg step (next ∷ rest)) (step arg (some next) s)

  abbrev pub Keeps : (S → Type 0) → Result E (S × Bool) → Type 0
  Keeps P = Returns (λ (r : S × Bool). P r.0)

  take_step-Returns :
      (P : S → Type 0) (skip go : S → Result E S) (r : Result E (S × Bool))
      → ((s : S) → P s → Returns P (skip s))
      → ((s : S) → P s → Returns P (go s))
      → Keeps P r
      → Returns P (take_step skip go r)
  take_step-Returns P skip go (err e) f g k = tt
  take_step-Returns P skip go (ok (s, true)) f g k = f s k
  take_step-Returns P skip go (ok (s, false)) f g k = g s k

  -- An invariant that every step keeps holds of what the loop returns.
  pub each_arg-Returns :
      (P : S → Type 0) (step : Text → Option Text → S → Result E (S × Bool))
      → ((arg : Text) (next : Option Text) (s : S) → P s → Keeps P (step arg next s))
      → (args : List Text) (s : S) → P s
      → Returns P (each_arg step args s)
  unfolding each_arg
  each_arg-Returns P step k [] s h = h
  each_arg-Returns P step k (arg ∷ []) s h =
      take_step-Returns P ok ok (step arg none s) (λ t p. p) (λ t p. p) (k arg none s h)
  each_arg-Returns P step k (arg ∷ next ∷ rest) s h =
      take_step-Returns P (each_arg step rest) (each_arg step (next ∷ rest))
        (step arg (some next) s) (each_arg-Returns P step k rest)
        (each_arg-Returns P step k (next ∷ rest)) (k arg (some next) s h)
