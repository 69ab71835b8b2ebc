-- ===== src/Prelude/Result.antt =====
-- A computation that may throw: what it returns, or the error that it throws.
use mathlib.Core.Path.{◌≡◌, refl}

pub data Result {ε α} (Thrown : Type ε) (Value : Type α) : Type (ε ⊔ α) where
  err : Thrown → Result Thrown Value
  ok : Value → Result Thrown Value

module _ {ε α β} {Thrown : Type ε} {Value : Type α} {Next : Type β} where
  infixl 4 ◌>>=◌
  abbrev pub ◌>>=◌ : Result Thrown Value → (Value → Result Thrown Next) → Result Thrown Next
  err thrown >>= next = err thrown
  ok value >>= next = next value

  -- A sequence returns only if its first part does.
  pub >>=-eq-ok :
      (m : Result Thrown Value) (next : Value → Result Thrown Next) {b : Next}
      → (m >>= next) ≡ ok b
      → (value : Value) × (m ≡ ok value) × (next value ≡ ok b)
  >>=-eq-ok (err thrown) next h = cc
  >>=-eq-ok (ok value) next h = (value, refl, h)
