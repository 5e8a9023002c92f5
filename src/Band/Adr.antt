-- ===== src/Band/Adr.antt =====
-- The settings that ADRSettings chooses.
use ttn.Base.{
  ap, ap₂, sym, ◌∙◌, ℕ, zero, suc, ◌+◌, ◌-◌, ◌*◌, ◌/◌, ◌≤◌, ◌<◌, ◌≡◌, inl, inr, true, List, Option,
  none, some, Result, ok, err, Outcome, done, fails, panics, blocks, arith, min, max, Bool-cases,
  ltb,
}
use ttn.Base.Options.{some_inj}
use ttn.Base.Int.{
  ℤ, pos, pos_part, neg_part, ◌+ℤ◌, ◌-ℤ◌, ◌≤ℤ◌, ◌<ℤ◌, ltb_ℤ, ltb_ℤ_true, ltb_ℤ_false, int_laws,
  eq_of_parts,
}
use ttn.Band.{
  FrequencyPlan, AdrSettings, settings, settings_of, choose_settings, adr_settings, link_margin,
  get_data_rate_index_for, AdrConfig, adjust, raise_data_rate, lower_tx_power, raise_tx_power,
  at_least, at_most,
}

raise_data_rate_lem :
    (n index max : ℕ)
    → index ≤ max
    → ((raise_data_rate n index max).1 ≡ min max (index + n))
      × ((raise_data_rate n index max).0 ≡ n - (max - index))
unfolding raise_data_rate
raise_data_rate_lem zero index max h = omega arith
raise_data_rate_lem (suc n) index max h = ground (arith, raise_data_rate_lem n (suc index) max)

raise_tx_power_lem :
    (fuel : ℕ) (tx_power max : ℤ)
    → max ≤ℤ tx_power +ℤ pos fuel
    → max ≤ℤ raise_tx_power fuel tx_power max
unfolding raise_tx_power
raise_tx_power_lem zero tx_power max h = omega int_laws
raise_tx_power_lem (suc fuel) tx_power max h = elim (Bool-cases (ltb_ℤ tx_power max)) [
  | inl below ↦ rw below (raise_tx_power_lem fuel (tx_power +ℤ pos 3) max (omega int_laws))
  | inr above ↦ rw above (ltb_ℤ_false tx_power max above)
]

at_least-le : (min x : ℤ) → x ≤ℤ min → at_least min x ≡ min
unfolding at_least
at_least-le min x h = elim (Bool-cases (ltb_ℤ x min)) [
  | inl below ↦ rw below
  | inr above ↦
      let k : min ≤ℤ x = ltb_ℤ_false x min above in rw above (eq_of_parts x min (omega arith))
]

at_least-ge : (min x : ℤ) → min ≤ℤ x → at_least min x ≡ x
unfolding at_least
at_least-ge min x h = elim (Bool-cases (ltb_ℤ x min)) [
  | inl below ↦ let k : x <ℤ min = ltb_ℤ_true x min below in absurd (omega arith)
  | inr above ↦ rw above
]

at_most-le : (max x : ℤ) → x ≤ℤ max → at_most max x ≡ x
unfolding at_most
at_most-le max x h = elim (Bool-cases (ltb_ℤ max x)) [
  | inl above ↦ let k : max <ℤ x = ltb_ℤ_true max x above in absurd (omega arith)
  | inr below ↦ rw below
]

at_most-ge : (max x : ℤ) → max ≤ℤ x → at_most max x ≡ max
unfolding at_most
at_most-ge max x h = elim (Bool-cases (ltb_ℤ max x)) [
  | inl above ↦ rw above
  | inr below ↦
      let k : x ≤ℤ max = ltb_ℤ_false max x below in rw below (eq_of_parts x max (omega arith))
]

at_least_bounds :
    (min max x : ℤ) → min ≤ℤ max → x ≤ℤ max → (min ≤ℤ at_least min x) × (at_least min x ≤ℤ max)
unfolding at_least
at_least_bounds min max x h k = elim (Bool-cases (ltb_ℤ x min)) [
  | inl below ↦ rw below (omega arith)
  | inr above ↦ let l : min ≤ℤ x = ltb_ℤ_false x min above in rw above (omega arith)
]

lower_tx_power_lem :
    (n : ℕ) (tx_power min : ℤ)
    → at_least min (lower_tx_power n tx_power min) ≡ at_least min (tx_power -ℤ pos (3 * n))
unfolding lower_tx_power
lower_tx_power_lem zero tx_power min =
    ap (at_least min) (eq_of_parts tx_power (tx_power -ℤ pos (3 * 0)) (omega int_laws))
lower_tx_power_lem (suc n) tx_power min = elim (Bool-cases (ltb_ℤ min tx_power)) [
  | inl above ↦ rw above (
      lower_tx_power_lem n (tx_power -ℤ pos 3) min
      ∙ ap (at_least min) (
          eq_of_parts (tx_power -ℤ pos 3 -ℤ pos (3 * n)) (tx_power -ℤ pos (3 * suc n))
            (omega int_laws)))
  | inr below ↦
      let h : tx_power ≤ℤ min = ltb_ℤ_false min tx_power below in
      rw below (
        at_least-le min tx_power h
        ∙ sym (at_least-le min (tx_power -ℤ pos (3 * suc n)) (omega int_laws)))
]

-- A margin to spare first raises the data rate, an index for each step of three decibels, up to the
-- maximum; each step that is left lowers the power by three decibels, down to the minimum.
pub adjust_up :
    (adr : AdrConfig) (index : ℕ) (tx_power : ℤ) (up : ℕ)
    → index ≤ adr.max_data_rate
    → adr.min_tx_power ≤ℤ adr.max_tx_power
    → tx_power ≤ℤ adr.max_tx_power
    → adjust adr index tx_power up 0 ≡ (
      min adr.max_data_rate (index + up),
      at_least adr.min_tx_power (tx_power -ℤ pos (3 * (up - (adr.max_data_rate - index)))),
    )
unfolding adjust
adjust_up adr index tx_power up h k l =
    let (raised, left) = raise_data_rate_lem up index adr.max_data_rate h in
    let steps = up - (adr.max_data_rate - index) in
    let bounds =
      at_least_bounds adr.min_tx_power adr.max_tx_power (tx_power -ℤ pos (3 * steps)) k
        (omega int_laws) in
    ap₂ (λ a b. (a, b)) raised
      (rw (left, lower_tx_power_lem steps tx_power adr.min_tx_power)
        (at_most-le adr.max_tx_power _ bounds.1))

-- A margin that is too small, by whatever number of steps, keeps the data rate and sets the maximum
-- power at once.
pub adjust_down :
    (adr : AdrConfig) (index : ℕ) (tx_power : ℤ) (down : ℕ)
    → adr.min_tx_power ≤ℤ adr.max_tx_power
    → 0 < down
    → adjust adr index tx_power 0 down ≡ (index, adr.max_tx_power)
unfolding adjust raise_data_rate lower_tx_power
adjust_down adr index tx_power down h k =
    let lowered = at_least adr.min_tx_power tx_power in
    let positive : ltb 0 down ≡ true = ground arith in
    ap (λ (p : ℤ). (index, p))
      (rw positive (
        at_most-ge adr.max_tx_power _ (
          raise_tx_power_lem (pos_part (adr.max_tx_power -ℤ lowered)) lowered adr.max_tx_power
            (omega int_laws))))

at_most_bounds :
    (min max x : ℤ) → min ≤ℤ max → min ≤ℤ x → (min ≤ℤ at_most max x) × (at_most max x ≤ℤ max)
unfolding at_most
at_most_bounds min max x h k = elim (Bool-cases (ltb_ℤ max x)) [
  | inl above ↦ rw above (omega arith)
  | inr below ↦ let l : x ≤ℤ max = ltb_ℤ_false max x below in rw below (omega arith)
]

raise_tx_power-ge :
    (fuel : ℕ) (min tx_power max : ℤ) → min ≤ℤ tx_power → min ≤ℤ raise_tx_power fuel tx_power max
unfolding raise_tx_power
raise_tx_power-ge zero min tx_power max h = h
raise_tx_power-ge (suc fuel) min tx_power max h = elim (Bool-cases (ltb_ℤ tx_power max)) [
  | inl below ↦ rw below (raise_tx_power-ge fuel min (tx_power +ℤ pos 3) max (omega int_laws))
  | inr above ↦ rw above h
]

at_least-min : (min x : ℤ) → min ≤ℤ at_least min x
unfolding at_least
at_least-min min x = elim (Bool-cases (ltb_ℤ x min)) [
  | inl below ↦ rw below (omega arith)
  | inr above ↦ rw above (ltb_ℤ_false x min above)
]

adjust_bounds :
    (adr : AdrConfig) (index : ℕ) (tx_power : ℤ) (up down : ℕ)
    → adr.min_tx_power ≤ℤ adr.max_tx_power
    → (adr.min_tx_power ≤ℤ (adjust adr index tx_power up down).1)
      × ((adjust adr index tx_power up down).1 ≤ℤ adr.max_tx_power)
unfolding adjust
adjust_bounds adr index tx_power up down h =
    let left = (raise_data_rate up index adr.max_data_rate).0 in
    let lowered = at_least adr.min_tx_power (lower_tx_power left tx_power adr.min_tx_power) in
    let low = at_least-min adr.min_tx_power (lower_tx_power left tx_power adr.min_tx_power) in
    elim (Bool-cases (ltb 0 down)) [
      | inl k ↦ rw k (
          at_most_bounds adr.min_tx_power adr.max_tx_power _ h (
            raise_tx_power-ge (pos_part (adr.max_tx_power -ℤ lowered)) adr.min_tx_power lowered
              adr.max_tx_power low))
      | inr k ↦ rw k (at_most_bounds adr.min_tx_power adr.max_tx_power _ h low)
    ]

settings_of_lem :
    (text : Outcome (List ℕ)) (tx_power : ℤ) (desired : List ℕ) (power : ℤ)
    → settings_of text tx_power ≡ settings desired power
    → tx_power ≡ power
unfolding settings_of
settings_of_lem (done d) tx_power desired power r =
    ap (λ s. elim s [ settings _ p ↦ p | _ ↦ tx_power ]) r
settings_of_lem (fails e) tx_power desired power r = cc
settings_of_lem panics tx_power desired power r = cc
settings_of_lem blocks tx_power desired power r = cc

choose_settings_bounds :
    (plan : FrequencyPlan) (adr : AdrConfig) (tx_power margin : ℤ) (index : Result ℕ)
    (desired : List ℕ) (power : ℤ)
    → adr.min_tx_power ≤ℤ adr.max_tx_power
    → choose_settings plan adr tx_power margin index ≡ settings desired power
    → (adr.min_tx_power ≤ℤ power) × (power ≤ℤ adr.max_tx_power)
unfolding choose_settings
choose_settings_bounds plan adr tx_power margin (err e) desired power h r = cc
choose_settings_bounds plan adr tx_power margin (ok index) desired power h r =
    let up = pos_part margin / 12 in
    let down = neg_part margin / 12 in
    rw (sym (settings_of_lem _ _ desired power r)) (adjust_bounds adr index tx_power up down h)

elim_adr {ℓ} :
    {A : Type ℓ} {S : Type 0} (o : Option A) (a : A) (n : S) (f : A → S) {s : S}
    → o ≡ some a
    → elim o [ none ↦ n | some x ↦ f x ] ≡ s
    → f a ≡ s
elim_adr none a n f e r = cc
elim_adr (some b) a n f e r = ap f (sym (some_inj e)) ∙ r

-- Whatever the SNR, the power that ADRSettings chooses is within the limits of the plan.
pub adr_settings_bounds :
    (plan : FrequencyPlan) (adr : AdrConfig) (data_rate : List ℕ) (tx_power snr margin : ℤ)
    (desired : List ℕ) (desired_power : ℤ)
    → plan.adr ≡ some adr
    → adr.min_tx_power ≤ℤ adr.max_tx_power
    → adr_settings plan data_rate tx_power snr margin ≡ settings desired desired_power
    → (adr.min_tx_power ≤ℤ desired_power) × (desired_power ≤ℤ adr.max_tx_power)
unfolding adr_settings
adr_settings_bounds plan adr data_rate tx_power snr margin desired desired_power e h r =
    choose_settings_bounds plan adr tx_power (link_margin data_rate snr -ℤ margin)
      (get_data_rate_index_for plan data_rate) desired desired_power h
      (elim_adr plan.adr adr AdrSettings.unavailable _ e r)
