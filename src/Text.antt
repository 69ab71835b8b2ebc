-- ===== src/Text.antt =====
-- JavaScript strings, as sequences of UTF-16 code units: equality, the order of `<`, prefixes.
pub mod Order
use Prim.Native.Char.{code}
use Prim.Native.String
use Prim.Native.String.{String}
use borg_mcp_client.Prelude.{
  ℕ, ◌+◌, ◌-◌, ◌/◌, ◌%◌, ◌≡◌, refl, ◌↔◌, Bool, true, false, ◌&&◌, ◌||◌, List, [], ◌∷◌, ◌++◌, arith,
  leb, ltb, if◌then◌else◌,
}
use borg_mcp_client.Prelude.{◌==◌ as nat_eq, ==_iff}

abbrev pub Text : Type 0
Text = List ℕ

-- A literal of the source. Code points above U+FFFF are two code units.
unfoldable pub lit : String → Text
lit String.[] = []
lit (String.◌∷◌ c s) =
    let n = code c in
    let rest = lit s in
    if leb 0x10000 n
    then (0xD800 + (n - 0x10000) / 0x400) ∷ (0xDC00 + (n - 0x10000) % 0x400) ∷ rest
    else n ∷ rest

infix 50 ◌==◌
-- `a === b`
unfoldable pub ◌==◌ : Text → Text → Bool
[] == [] = true
[] == (d ∷ t) = false
(c ∷ s) == [] = false
(c ∷ s) == (d ∷ t) = nat_eq c d && s == t

pub eq_iff : (s t : Text) → ((s == t) ≡ true) ↔ (s ≡ t)
unfolding ◌==◌
eq_iff [] [] = (λ _. refl, λ _. refl)
eq_iff [] (d ∷ t) = (λ h. cc, λ h. cc)
eq_iff (c ∷ s) [] = (λ h. cc, λ h. cc)
eq_iff (c ∷ s) (d ∷ t) = ground (arith, eq_iff s t)

pub eq_refl : (s : Text) → (s == s) ≡ true
eq_refl s = (eq_iff s s).1 refl

-- `s.startsWith(p)`
unfoldable pub starts_with : Text → Text → Bool
starts_with s [] = true
starts_with [] (d ∷ p) = false
starts_with (c ∷ s) (d ∷ p) = nat_eq c d && starts_with s p

-- `s.includes(p)`
unfoldable pub includes : Text → Text → Bool
unfolding starts_with
includes [] p = starts_with [] p
includes (c ∷ s) p = starts_with (c ∷ s) p || includes s p

-- `array.includes(s)` and `set.has(s)`
unfoldable pub member : Text → List Text → Bool
member s [] = false
member s (t ∷ ts) = t == s || member s ts
