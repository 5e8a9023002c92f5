-- ===== src/Router/Options/Laws.antt =====
-- What the options that a router offers have in common.
use ttn.Base.{
  ℕ, suc, ◌+◌, ◌/◌, ◌%◌, ◌^◌, ◌≤◌, ◌<◌, ◌≡◌, ◌⊎◌, inl, inr, refl, ap, subst, Bool, true, false,
  ◌&&◌, List, [], ◌∷◌, ◌++◌, Option, none, some, String, Result, ok, err, ltb, ◌==◌, if◌then◌else◌,
  if_case, Bool-cases, length, All, arith, from_bind, ok_inj,
}
use ttn.Base.Int.{ℤ, pos}
use ttn.Types.DataRate.{DataRate, parse_data_rate}
use ttn.Toa.{Float64, compute_lora}
use ttn.Router.Schedule.{Schedule}
use ttn.Router.Options.{
  TxOption, Received, Plan, Comparisons, Utilization, build_option, after, build_rx2, build_rx1,
  with_rx1, both_windows, windows, plan_for, airtime_of, scheduled, score_option,
  compute_downlink_scores, identified, legal, build_downlink_options,
}

-- The time of a window: its delay, in nanoseconds, after the uplink, in the microseconds of the
-- gateway's clock of 32 bits.
abbrev pub IsTimeOf : ℕ → ℕ → ℕ → Type 0
IsTimeOf timestamp delay time = time ≡ (timestamp + delay / 1000) % 2 ^ 32

module _ {float : Float64} (is_activation : Bool) (plan : Plan) (uplink : Received float)
    (option : TxOption) where
  -- The first window: the frequency and the data rate that the plan answers the uplink with.
  abbrev pub IsFirst : Type 0
  IsFirst =
      IsTimeOf uplink.timestamp
        (if is_activation then plan.join_accept_delay_1 else plan.receive_delay_1) option.timestamp
      × (plan.rx1_frequency uplink.frequency ≡ ok option.frequency)
      × ((data_rate : DataRate) × (up down : ℕ) × (parse_data_rate uplink.data_rate ≡ ok data_rate)
          × (plan.data_rate_index data_rate ≡ ok up)
          × (plan.rx1_data_rate up ≡ ok down)
          × (plan.data_rate_text down ≡ ok option.data_rate))
      × (option.power ≡ plan.default_tx_power)

  -- The second window: the frequency of the plan, and its data rate with the index `rate`.
  abbrev pub IsSecond : ℕ → Type 0
  IsSecond rate =
      IsTimeOf uplink.timestamp
        (if is_activation then plan.join_accept_delay_2 else plan.receive_delay_2) option.timestamp
      × (option.frequency ≡ plan.rx2_frequency)
      × (option.data_rate ≡ plan.lora_text rate)
      × (option.power ≡ (if plan.is_eu then pos 27 else plan.default_tx_power))

-- An option for this gateway, in one of the windows.
abbrev pub Fits : {float : Float64} → String → Bool → Plan → ℕ → Received float → TxOption → Type 0
Fits gateway_id is_activation plan rate uplink option =
    (option.gateway_id ≡ gateway_id)
    × (option.coding_rate ≡ uplink.coding_rate)
    × (IsFirst is_activation plan uplink option ⊎ IsSecond is_activation plan uplink option rate)

-- An identifier that begins with the router's, if the router has one.
abbrev pub IsNamed : Option (List ℕ) → List ℕ → Type 0
IsNamed none identifier = Unit
IsNamed (some router) identifier = (id : List ℕ) × (identifier ≡ router ++ (b':' ∷ id))

-- An option that is offered: it is legal, and names its router. Joins are answered with the data rate 0
-- in the second window of the European plan.
pub record IsOffer {float : Float64} (router : Option (List ℕ)) (gateway_id : String)
    (is_activation : Bool) (plan : Plan) (uplink : Received float) (option : TxOption)
    : Type 0 where
  pub fits :
      Fits gateway_id is_activation plan
        (if plan.is_eu && is_activation then 0 else plan.rx2_data_rate)
        uplink
        option
  pub is_legal : option.score < 1000
  pub names : IsNamed router option.identifier

after_lem : (t d : ℕ) → IsTimeOf t d (after t d)
unfolding after
after_lem t d = omega arith

module _ {float : Float64} (gateway_id : String) (is_activation : Bool) (plan : Plan)
    (uplink : Received float) where
  abbrev FitsHere : TxOption → Type 0
  FitsHere = Fits gateway_id is_activation plan plan.rx2_data_rate uplink

  abbrev FitsAll : List TxOption → Type 0
  FitsAll = All FitsHere

  window_lem :
      (delay delay' : ℕ)
      → IsTimeOf uplink.timestamp
          (if is_activation then delay else delay')
          (if is_activation then after uplink.timestamp delay else after uplink.timestamp delay')
  window_lem delay delay' = elim (Bool-cases is_activation) [
    | inl e ↦ rw e (after_lem uplink.timestamp delay)
    | inr e ↦ rw e (after_lem uplink.timestamp delay')
  ]

  build_rx2-Fits : FitsHere (build_rx2 gateway_id is_activation plan uplink)
  unfolding build_rx2 build_option
  build_rx2-Fits =
      (refl, refl, inr (window_lem plan.join_accept_delay_2 plan.receive_delay_2, refl, refl, refl))

  build_rx1-Fits :
      (data_rate : DataRate) (option : TxOption)
      → parse_data_rate uplink.data_rate ≡ ok data_rate
      → build_rx1 gateway_id is_activation plan uplink data_rate ≡ ok option
      → FitsHere option
  unfolding build_rx1 build_option
  build_rx1-Fits data_rate option p h =
      from_bind (plan.rx1_frequency uplink.frequency) _ h λ frequency e1 r1.
        from_bind (plan.data_rate_index data_rate) _ r1 λ up e2 r2.
          from_bind (plan.rx1_data_rate up) _ r2 λ down e3 r3.
            from_bind (plan.data_rate_text down) _ r3 λ text e4 r4. subst FitsHere (ok_inj r4) (
              refl,
              refl,
              inl (
                window_lem plan.join_accept_delay_1 plan.receive_delay_1,
                e1,
                (data_rate, up, down, p, e2, e3, e4),
                refl,
              ),
            )

  with_rx1-Fits :
      (rx2 : TxOption) (rx1 : Result TxOption)
      → FitsHere rx2
      → ((option : TxOption) → rx1 ≡ ok option → FitsHere option)
      → FitsAll (with_rx1 gateway_id is_activation plan uplink rx2 rx1)
        × (length (with_rx1 gateway_id is_activation plan uplink rx2 rx1) ≤ 2)
  unfolding with_rx1
  with_rx1-Fits rx2 (err e) f g = ((f, tt), omega arith)
  with_rx1-Fits rx2 (ok rx1) f g = ((f, (g rx1 refl, tt)), omega arith)

  both_windows-Fits :
      (r : Result DataRate)
      → parse_data_rate uplink.data_rate ≡ r
      → FitsAll (both_windows gateway_id is_activation plan uplink r)
        × (length (both_windows gateway_id is_activation plan uplink r) ≤ 2)
  unfolding both_windows
  both_windows-Fits (err e) p = (tt, omega arith)
  both_windows-Fits (ok data_rate) p =
      with_rx1-Fits (build_rx2 gateway_id is_activation plan uplink)
        (build_rx1 gateway_id is_activation plan uplink data_rate) build_rx2-Fits
        (λ option. build_rx1-Fits data_rate option p)

  windows-Fits :
      FitsAll (windows gateway_id is_activation plan uplink)
      × (length (windows gateway_id is_activation plan uplink) ≤ 2)
  unfolding windows
  windows-Fits = both_windows-Fits (parse_data_rate uplink.data_rate) refl

module _ (float : Float64) (compare : Comparisons float) (usage : Utilization float)
    (uplink : Received float) (is_eu : Bool) (gateway_id : String) (is_activation : Bool)
    (plan : Plan) (rate : ℕ) where
  abbrev Stays : TxOption → Type 0
  Stays = Fits gateway_id is_activation plan rate uplink

  score_option-Fits :
      (schedule : Schedule) (now : ℤ) (id : String) (option : TxOption)
      → Stays option
      → Stays (score_option float compare usage uplink is_eu schedule now id option).1
  unfolding score_option scheduled
  score_option-Fits schedule now id option f =
      let airtime =
        airtime_of float compare usage uplink is_eu
          (compute_lora float 64 option.data_rate option.coding_rate) in
      if_case (λ (p : Schedule × TxOption). Stays p.1) (airtime == 0) f f

  compute_downlink_scores-Fits :
      (now : ℤ) (ids : ℕ → String) (n : ℕ) (schedule : Schedule) (options : List TxOption)
      → All Stays options
      → All Stays
          (compute_downlink_scores float compare usage uplink is_eu now ids n schedule options).1
        × (length
              (compute_downlink_scores float compare usage uplink is_eu now ids n schedule
                options).1
            ≡ length options)
  unfolding compute_downlink_scores
  compute_downlink_scores-Fits now ids n schedule [] f = (tt, refl)
  compute_downlink_scores-Fits now ids n schedule (option ∷ rest) (f, fs) =
      let next = score_option float compare usage uplink is_eu schedule now (ids n) option in
      let (others, same) = compute_downlink_scores-Fits now ids (n + 1) next.0 rest fs in
      ((score_option-Fits schedule now (ids n) option f, others), ap suc same)

identified-IsNamed :
    (router : Option (List ℕ)) (identifier : List ℕ) → IsNamed router (identified router identifier)
unfolding identified
identified-IsNamed none identifier = tt
identified-IsNamed (some router) identifier = (identifier, refl)

module _ {float : Float64} (router : Option (List ℕ)) (gateway_id : String) (is_activation : Bool)
    (plan : Plan) (uplink : Received float) where
  -- The data rate of the second window.
  abbrev rate : ℕ
  rate = if plan.is_eu && is_activation then 0 else plan.rx2_data_rate

  legal-IsOffer :
      (options : List TxOption)
      → All (Fits gateway_id is_activation plan rate uplink) options
      → All (IsOffer router gateway_id is_activation plan uplink) (legal router options)
        × (length (legal router options) ≤ length options)
  unfolding legal
  legal-IsOffer [] f = (tt, omega arith)
  legal-IsOffer (option ∷ rest) (f, fs) =
      let (offers, shorter) = legal-IsOffer rest fs in
      elim (Bool-cases (ltb option.score 1000)) [
        | inl e ↦ rw e (
          (
            record {
              fits = f;
              is_legal = ground arith;
              names = identified-IsNamed router option.identifier;
            },
            offers,
          ),
          omega (arith, shorter),
        )
        | inr e ↦ rw e (offers, omega (arith, shorter))
      ]

  -- The plan for joins has the delays, the frequencies and the tables of the plan.
  same_plan :
      (b : Bool) (options : List TxOption)
      → let used = if b then record plan { rx2_data_rate = 0 } else plan in
        All (Fits gateway_id is_activation used used.rx2_data_rate uplink) options
        → All
            (Fits gateway_id is_activation plan (if b then 0 else plan.rx2_data_rate) uplink)
            options
  same_plan true options h = h
  same_plan false options h = h

  plan_for-Fits :
      (options : List TxOption)
      → let used = plan_for is_activation plan in
        All (Fits gateway_id is_activation used used.rx2_data_rate uplink) options
        → All (Fits gateway_id is_activation plan rate uplink) options
  unfolding plan_for
  plan_for-Fits options h = same_plan (plan.is_eu && is_activation) options h

-- A router offers at most two transmissions for an uplink. Each is for the gateway that received it, has
-- the coding rate of the uplink, a score below 1000, and, if the router has an identity, an identifier
-- that begins with the router's. It is one of the first receive window, with the delay of this window
-- for a join or for data, the frequency and the data rate that the plan answers the uplink with there
-- and the default power; or one of the second, with the delay of that window, the frequency and the
-- data rate of the plan, which for a join in the European plan is 0, and the power of the plan.
pub build_downlink_options-IsOffer :
    (float : Float64) (compare : Comparisons float) (usage : Utilization float)
    (router : Option (List ℕ)) (gateway_id : String) (is_activation : Bool) (plan : Plan)
    (uplink : Received float) (now : ℤ) (ids : ℕ → String) (schedule : Schedule)
    → All
        (IsOffer router gateway_id is_activation plan uplink)
        (build_downlink_options float compare usage router gateway_id is_activation plan uplink now
          ids schedule).1
      × (length
            (build_downlink_options float compare usage router gateway_id is_activation plan uplink
              now ids schedule).1
          ≤ 2)
unfolding build_downlink_options
build_downlink_options-IsOffer float compare usage router gateway_id is_activation plan uplink now
      ids schedule =
    let used = plan_for is_activation plan in
    let (fit, few) = windows-Fits gateway_id is_activation used uplink in
    let (scored, same) =
      compute_downlink_scores-Fits float compare usage uplink plan.is_eu gateway_id is_activation
        plan (if plan.is_eu && is_activation then 0 else plan.rx2_data_rate) now ids 0 schedule
        (windows gateway_id is_activation used uplink)
        (plan_for-Fits router gateway_id is_activation plan uplink
          (windows gateway_id is_activation used uplink) fit) in
    let (offers, shorter) =
      legal-IsOffer router gateway_id is_activation plan uplink
        (compute_downlink_scores float compare usage uplink plan.is_eu now ids 0 schedule
          (windows gateway_id is_activation used uplink)).1
        scored in
    (offers, omega (arith, few, same, shorter))
