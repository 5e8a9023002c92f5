-- ===== src/Base/Texts.antt =====
-- Texts as lists of codes, which the parsers walk.
use Prim.Native.Nat.{ℕ, zero, suc, ◌+◌, ◌/◌, ◌%◌}
use Prim.Native.Char.{code}
use Prim.Native.String.{String}
use mathlib.Core.Logic.{◌↔◌}
use mathlib.Core.Bool.{Bool, true, false, ◌&&◌}
use mathlib.Core.Path.{◌≡◌, refl}
use mathlib.Core.Option.{Option, none, some}
use mathlib.Core.List.{List, [], ◌∷◌, ◌++◌}
use native.Mathlib.Omega.{arith}
use ttn.Base.Tests.{ltb, ◌==◌, if◌then◌else◌}

-- The code points of a text: its bytes, if it is ASCII.
abbrev pub codes : String → List ℕ
codes String.[] = []
codes (String.◌∷◌ c s) = code c ∷ codes s

-- strings.TrimPrefix, with `none` where the prefix is not there.
unfoldable pub strip_prefix : List ℕ → List ℕ → Option (List ℕ)
strip_prefix [] s = some s
strip_prefix (p ∷ ps) [] = none
strip_prefix (p ∷ ps) (c ∷ s) = if p == c then strip_prefix ps s else none

pub strip_prefix-append : (p s : List ℕ) → strip_prefix p (p ++ s) ≡ some s
unfolding strip_prefix
strip_prefix-append [] s = refl
strip_prefix-append (c ∷ p) s = ground (arith, strip_prefix-append p s)

pub strip_prefix-eq_some : (p s r : List ℕ) → strip_prefix p s ≡ some r → s ≡ p ++ r
unfolding strip_prefix
strip_prefix-eq_some [] s r e = ground arith
strip_prefix-eq_some (c ∷ p) [] r e = ground arith
strip_prefix-eq_some (c ∷ p) (d ∷ s) r e = ground (arith, strip_prefix-eq_some p s r)

-- A number in decimal, in front of a text.
decimal_fuel : ℕ → ℕ → List ℕ → List ℕ
decimal_fuel zero n s = s
decimal_fuel (suc f) n s =
    let digit = (b'0' + n % 10) ∷ s in
    let rest = decimal_fuel f (n / 10) digit in if ltb n 10 then digit else rest

unfoldable pub decimal : ℕ → List ℕ
unfolding decimal_fuel
decimal n = decimal_fuel (n + 1) n []

-- Equality of two lists of codes.
unfoldable pub same_codes : List ℕ → List ℕ → Bool
same_codes [] [] = true
same_codes (a ∷ s) (b ∷ t) = a == b && same_codes s t
same_codes s t = false

pub same_codes_iff : (s t : List ℕ) → (same_codes s t ≡ true) ↔ (s ≡ t)
unfolding same_codes
same_codes_iff [] [] = ((λ e. refl), (λ e. refl))
same_codes_iff [] (b ∷ t) = ((λ e. cc), (λ e. cc))
same_codes_iff (a ∷ s) [] = ((λ e. cc), (λ e. cc))
same_codes_iff (a ∷ s) (b ∷ t) =
    ((λ e. ground (arith, same_codes_iff s t)), (λ e. ground (arith, same_codes_iff s t)))
