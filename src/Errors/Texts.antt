-- ===== src/Errors/Texts.antt =====
-- The functions of package strings that the errors use, over the characters of a text.
use Prim.Native.Char.{code}
use text.Mathlib.TextPositions.{eq_refl}
use ttn.Base.{
  ℕ, suc, ◌+◌, ◌≡◌, refl, ap, false, Option, none, some, String, arith, ◌==◌, if◌then◌else◌, str_eq,
  str_eq_iff, Bool-cases, inl, inr,
}

unfoldable pub append : String → String → String
append String.[] t = t
append (String.◌∷◌ c s) t = String.◌∷◌ c (append s t)

-- What follows a prefix, if the text has it.
unfoldable pub after_prefix : String → String → Option String
after_prefix String.[] s = some s
after_prefix (String.◌∷◌ p ps) String.[] = none
after_prefix (String.◌∷◌ p ps) (String.◌∷◌ c s) =
    if code p == code c then after_prefix ps s else none

unfoldable pub trim_prefix : String → String → String
unfolding after_prefix
trim_prefix prefix s = elim (after_prefix prefix s) [ none ↦ s | some rest ↦ rest ]

unfoldable pub trim_suffix : String → String → String
trim_suffix suffix String.[] = String.[]
trim_suffix suffix (String.◌∷◌ c s) =
    if str_eq (String.◌∷◌ c s) suffix then String.[] else String.◌∷◌ c (trim_suffix suffix s)

-- The parts before and after the first occurrence of a separator.
unfoldable pub cut : String → String → Option (String × String)
unfolding after_prefix
cut separator String.[] = none
cut separator (String.◌∷◌ c s) = elim (after_prefix separator (String.◌∷◌ c s)) [
  | some rest ↦ some (String.[], rest)
  | none ↦ elim (cut separator s) [
    | none ↦ none
    | some (before, rest) ↦ some (String.◌∷◌ c before, rest)
  ]
]

-- strings.Split, where it gives two parts.
unfoldable pub split_two : String → String → Option (String × String)
unfolding cut
split_two separator s = elim (cut separator s) [
  | none ↦ none
  | some (before, rest) ↦ elim (cut separator rest) [ none ↦ some (before, rest) | some _ ↦ none ]
]

characters : String → ℕ
characters String.[] = 0
characters (String.◌∷◌ c s) = suc (characters s)

characters-append : (s t : String) → characters (append s t) ≡ characters s + characters t
unfolding characters append
characters-append String.[] t = omega arith
characters-append (String.◌∷◌ c s) t = omega (arith, characters-append s t)

longer : (c : _) (s t : String) → str_eq (String.◌∷◌ c (append s t)) t ≡ false
longer c s t = elim (Bool-cases (str_eq (String.◌∷◌ c (append s t)) t)) [
  | inl same ↦
      let e = ap characters ((str_eq_iff _ t).0 same) in
      absurd (unfold characters in omega (arith, e, characters-append s t))
  | inr other ↦ other
]

after_prefix-append : (p s : String) → after_prefix p (append p s) ≡ some s
unfolding after_prefix append
after_prefix-append String.[] s = refl
after_prefix-append (String.◌∷◌ c p) s = ground (arith, after_prefix-append p s)

pub trim_prefix-append : (p s : String) → trim_prefix p (append p s) ≡ s
unfolding trim_prefix
trim_prefix-append p s = rw (after_prefix-append p s, trim_prefix)

pub trim_suffix-append : (s t : String) → trim_suffix t (append s t) ≡ s
unfolding trim_suffix append
trim_suffix-append String.[] String.[] = refl
trim_suffix-append String.[] (String.◌∷◌ c t) = rw (eq_refl (String.◌∷◌ c t))
trim_suffix-append (String.◌∷◌ c s) t = rw (longer c s t, trim_suffix-append s t)
