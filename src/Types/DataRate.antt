-- ===== src/Types/DataRate.antt =====
-- core/types/data_rate.go: LoRa data rates such as SF7BW125.
use mathlib.Core.List.{append_assoc}
use ttn.Base.Options.{◌>>=◌, >>=-eq_some, some_inj}
use ttn.Base.{
  Option-cases, ℕ, ◌≡◌, ap, ◌∙◌, sym, ◌⊎◌, inl, inr, List, [], ◌∷◌, ◌++◌, Option, none, some, arith,
  codes, strip_prefix, strip_prefix-append, strip_prefix-eq_some, decimal, Result, ok, Error,
  or_fail, or_fail-eq_ok,
}

pub record DataRate : Type 0 where
  pub spreading_factor : ℕ
  pub bandwidth : ℕ

-- An alternation of numerals, as in (7|8|9): the first that the text begins with, and the rest.
alternative : List ℕ → List ℕ → Option (ℕ × List ℕ)
alternative [] s = none
alternative (n ∷ ns) s = elim (strip_prefix (decimal n) s) [
  | some r ↦ some (n, r)
  | none ↦ alternative ns s
]

abbrev spreading_factors : List ℕ
spreading_factors = 7 ∷ 8 ∷ 9 ∷ 10 ∷ 11 ∷ 12 ∷ []

abbrev bandwidths : List ℕ
bandwidths = 125 ∷ 250 ∷ 500 ∷ []

-- The expression SF(7|8|9|10|11|12)BW(125|250|500) at the beginning of the text.
match_here : List ℕ → Option DataRate
match_here s = do
  a ← strip_prefix (codes "SF") s
  (sf, b) ← alternative spreading_factors a
  c ← strip_prefix (codes "BW") b
  (bw, d) ← alternative bandwidths c
  some (record { spreading_factor = sf; bandwidth = bw })

-- The leftmost match, since the expression is not anchored.
find_match : List ℕ → Option DataRate
find_match [] = none
find_match (c ∷ s) = elim (match_here (c ∷ s)) [ some d ↦ some d | none ↦ find_match s ]

unfoldable pub parse_data_rate : List ℕ → Result DataRate
unfolding find_match match_here alternative
parse_data_rate input = or_fail (find_match input) (Error.other "ttn/core: Invalid DataRate")

unfoldable pub to_string : DataRate → List ℕ
to_string d = codes "SF" ++ (decimal d.spreading_factor ++ (codes "BW" ++ decimal d.bandwidth))

-- A number of a list.
abbrev pub IsOneOf : List ℕ → ℕ → Type 0
IsOneOf [] n = ⊥
IsOneOf (m ∷ ms) n = (n ≡ m) ⊎ IsOneOf ms n

-- The eighteen combinations that the expression names.
abbrev pub IsLora : DataRate → Type 0
IsLora d = IsOneOf spreading_factors d.spreading_factor × IsOneOf bandwidths d.bandwidth

alternative-eq_some :
    (ns s : List ℕ) (n : ℕ) (r : List ℕ)
    → alternative ns s ≡ some (n, r)
    → IsOneOf ns n × (s ≡ decimal n ++ r)
unfolding alternative
alternative-eq_some [] s n r e = cc
alternative-eq_some (m ∷ ns) s n r e = elim (Option-cases (strip_prefix (decimal m) s)) [
  | inl miss ↦
      let (one, split) = alternative-eq_some ns s n r (rw (miss, alternative) at e) in
      (inr one, split)
  | inr (t, hit) ↦
      let same : (m, t) ≡ (n, r) = some_inj (rw (hit, alternative) at e) in
      (
        inl (sym (ap (λ p. p.0) same)),
        rw (← ap (λ p. p.0) same, ← ap (λ p. p.1) same) (strip_prefix-eq_some (decimal m) s t hit),
      )
]

-- The text that the four parts of a match make up.
join_parts :
    (s a b c r : List ℕ) (sf bw : ℕ)
    → strip_prefix (codes "SF") s ≡ some a
    → a ≡ decimal sf ++ b
    → strip_prefix (codes "BW") b ≡ some c
    → c ≡ decimal bw ++ r
    → s ≡ to_string (record { spreading_factor = sf; bandwidth = bw }) ++ r
unfolding to_string
join_parts s a b c r sf bw p q u v =
    strip_prefix-eq_some (codes "SF") s a p
    ∙ ap (λ t. codes "SF" ++ t)
        (q
          ∙ ap (λ t. decimal sf ++ t)
              (strip_prefix-eq_some (codes "BW") b c u ∙ ap (λ t. codes "BW" ++ t) v))
    ∙ simp append_assoc

match_here_sound :
    (s : List ℕ) (d : DataRate)
    → match_here s ≡ some d
    → IsLora d × ((r : List ℕ) × (s ≡ to_string d ++ r))
unfolding match_here
match_here_sound s d e =
    let (a, sf_found, e1) = >>=-eq_some (strip_prefix (codes "SF") s) _ e in
    let ((sf, b), sf_read, e2) = >>=-eq_some (alternative spreading_factors a) _ e1 in
    let (c, bw_found, e3) = >>=-eq_some (strip_prefix (codes "BW") b) _ e2 in
    let ((bw, r), bw_read, e4) = >>=-eq_some (alternative bandwidths c) _ e3 in
    let (sf_one, sf_split) = alternative-eq_some spreading_factors a sf b sf_read in
    let (bw_one, bw_split) = alternative-eq_some bandwidths c bw r bw_read in
    let same : d ≡ record { spreading_factor = sf; bandwidth = bw } = some_inj (sym e4) in
    rw same ((sf_one, bw_one), (r, join_parts s a b c r sf bw sf_found sf_split bw_found bw_split))

find_match_sound :
    (s : List ℕ) (d : DataRate)
    → find_match s ≡ some d
    → IsLora d × ((x : List ℕ) × (y : List ℕ) × (s ≡ x ++ (to_string d ++ y)))
unfolding find_match
find_match_sound [] d e = cc
find_match_sound (c ∷ s) d e = elim (Option-cases (match_here (c ∷ s))) [
  | inl miss ↦
      let (lora, (x, y, split)) = find_match_sound s d (rw (miss, find_match) at e) in
      (lora, (c ∷ x, y, ap (◌∷◌ c) split))
  | inr (t, hit) ↦
      let same : t ≡ d = some_inj (rw (hit, find_match) at e) in
      let (lora, (r, split)) = match_here_sound (c ∷ s) d (hit ∙ ap some same) in
      (lora, ([], r, split))
]

-- A data rate that is parsed is one of the eighteen, and its text stands in the input.
pub parse_data_rate_sound :
    (s : List ℕ) (d : DataRate)
    → parse_data_rate s ≡ ok d
    → IsLora d × ((x : List ℕ) × (y : List ℕ) × (s ≡ x ++ (to_string d ++ y)))
unfolding parse_data_rate
parse_data_rate_sound s d e = find_match_sound s d (or_fail-eq_ok (find_match s) _ e)

alternative_sf :
    (n : ℕ) (r : List ℕ)
    → IsOneOf spreading_factors n
    → alternative spreading_factors (decimal n ++ r) ≡ some (n, r)
unfolding alternative decimal strip_prefix
alternative_sf n r (inl e) = rw e
alternative_sf n r (inr (inl e)) = rw e
alternative_sf n r (inr (inr (inl e))) = rw e
alternative_sf n r (inr (inr (inr (inl e)))) = rw e
alternative_sf n r (inr (inr (inr (inr (inl e))))) = rw e
alternative_sf n r (inr (inr (inr (inr (inr (inl e)))))) = rw e
alternative_sf n r (inr (inr (inr (inr (inr (inr x)))))) = elim x [ ]

alternative_bw :
    (n : ℕ) (r : List ℕ)
    → IsOneOf bandwidths n
    → alternative bandwidths (decimal n ++ r) ≡ some (n, r)
unfolding alternative decimal strip_prefix
alternative_bw n r (inl e) = rw e
alternative_bw n r (inr (inl e)) = rw e
alternative_bw n r (inr (inr (inl e))) = rw e
alternative_bw n r (inr (inr (inr x))) = elim x [ ]

match_here-to_string :
    (d : DataRate) (r : List ℕ) → IsLora d → match_here (to_string d ++ r) ≡ some d
unfolding match_here to_string
match_here-to_string d r (a, b) = simp (
  append_assoc,
  strip_prefix-append (codes "SF"),
  alternative_sf _ _ a,
  strip_prefix-append (codes "BW"),
  alternative_bw _ _ b,
)

find_match_here : (s : List ℕ) (d : DataRate) → match_here s ≡ some d → find_match s ≡ some d
unfolding find_match
find_match_here [] d e = unfold match_here strip_prefix in ground arith
find_match_here (c ∷ s) d e = rw (e, find_match)

-- The text of a data rate is parsed as that data rate, whatever follows it.
pub parse_data_rate-to_string :
    (d : DataRate) (r : List ℕ) → IsLora d → parse_data_rate (to_string d ++ r) ≡ ok d
unfolding parse_data_rate
parse_data_rate-to_string d r v =
    rw (find_match_here (to_string d ++ r) d (match_here-to_string d r v))
