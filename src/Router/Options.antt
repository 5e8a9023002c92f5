-- ===== src/Router/Options.antt =====
-- core/router/downlink.go: the transmissions that a router offers for the answer to an uplink, one for
-- each receive window, with their scores.
pub mod Laws
mod Tests
use ttn.Base.{
  ℕ, ◌+◌, ◌*◌, ◌/◌, ◌%◌, ◌^◌, Bool, true, false, ◌&&◌, List, [], ◌∷◌, ◌++◌, Option, none, some,
  String, Result, ok, err, Error, ◌>>=◌, ltb, leb, ◌==◌, str_eq, if◌then◌else◌, codes,
}
use ttn.Base.Int.{ℤ, pos, negsuc}
use ttn.Types.DataRate.{DataRate, parse_data_rate}
use ttn.Toa.{Float64, compute_lora}
use ttn.Router.Schedule.{Schedule, get_option}

-- pb_broker.DownlinkOption, with the fields that the router writes. All options use LoRa.
pub record TxOption : Type 0 where
  pub gateway_id : String
  pub identifier : List ℕ
  pub data_rate : List ℕ
  pub coding_rate : String
  pub frequency : ℕ
  pub power : ℤ
  pub timestamp : ℕ
  pub score : ℕ

-- What the code reads of an uplink that uses LoRa. `weakness` is the RSSI times -0.1, in float32.
pub record Received (float : Float64) : Type 0 where
  pub timestamp : ℕ
  pub frequency : ℕ
  pub data_rate : List ℕ
  pub coding_rate : String
  pub snr : Float64.Float float
  pub weakness : Float64.Float float

-- A frequency plan of package brocaar/lorawan/band, and its functions. The delays are in
-- nanoseconds. `data_rate_text` is ConvertDataRate and String of the data rate with an index, and
-- `lora_text` the same where the data rate is known to be one of LoRa, as in the second window.
pub record Plan : Type 0 where
  pub is_eu : Bool
  pub rx2_frequency : ℕ
  pub rx2_data_rate : ℕ
  pub default_tx_power : ℤ
  pub join_accept_delay_1 : ℕ
  pub join_accept_delay_2 : ℕ
  pub receive_delay_1 : ℕ
  pub receive_delay_2 : ℕ
  pub lora_text : ℕ → List ℕ
  pub data_rate_text : ℕ → Result (List ℕ)
  pub rx1_frequency : ℕ → Result ℕ
  pub data_rate_index : DataRate → Result ℕ
  pub rx1_data_rate : ℕ → Result ℕ

-- buildDownlinkOption.
pub build_option : String → Plan → TxOption
build_option gateway_id plan = record {
  gateway_id = gateway_id;
  identifier = [];
  data_rate = plan.lora_text plan.rx2_data_rate;
  coding_rate = "4/5";
  frequency = plan.rx2_frequency;
  power = plan.default_tx_power;
  timestamp = 0;
  score = 0;
}

-- A delay in microseconds, added in uint32.
pub after : ℕ → ℕ → ℕ
after timestamp delay = (timestamp + delay / 1000 % 2 ^ 32) % 2 ^ 32

module _ {float : Float64} (gateway_id : String) (is_activation : Bool) (plan : Plan)
    (uplink : Received float) where
  -- buildRX2.
  pub build_rx2 : TxOption
  unfolding build_option after
  build_rx2 =
      let option = build_option gateway_id plan in
      record option {
        power = if plan.is_eu then pos 27 else option.power;
        timestamp =
            if is_activation
            then after uplink.timestamp plan.join_accept_delay_2
            else after uplink.timestamp plan.receive_delay_2;
        coding_rate = uplink.coding_rate;
      }

  -- buildRX1, for the data rate of the uplink.
  pub build_rx1 : DataRate → Result TxOption
  unfolding build_option after
  build_rx1 data_rate = do
    frequency ← plan.rx1_frequency uplink.frequency
    up ← plan.data_rate_index data_rate
    down ← plan.rx1_data_rate up
    text ← plan.data_rate_text down
    ok (record (build_option gateway_id plan) {
      timestamp =
          if is_activation
          then after uplink.timestamp plan.join_accept_delay_1
          else after uplink.timestamp plan.receive_delay_1;
      coding_rate = uplink.coding_rate;
      frequency = frequency;
      data_rate = text;
    })

  with_rx1 : TxOption → Result TxOption → List TxOption
  with_rx1 rx2 (err e) = rx2 ∷ []
  with_rx1 rx2 (ok rx1) = rx2 ∷ rx1 ∷ []

  both_windows : Result DataRate → List TxOption
  unfolding with_rx1
  both_windows (err e) = []
  both_windows (ok data_rate) = with_rx1 build_rx2 (build_rx1 data_rate)

  -- The options before their scores.
  pub windows : List TxOption
  unfolding both_windows
  windows = both_windows (parse_data_rate uplink.data_rate)

-- EU_863_870 uses another data rate for joins in the second window.
pub plan_for : Bool → Plan → Plan
plan_for is_activation plan =
    if plan.is_eu && is_activation then record plan { rx2_data_rate = 0 } else plan

-- Comparison, the minimum, and the conversion to uint32, next to the operations on float64. `seconds`
-- is Duration.Seconds.
pub record Comparisons (float : Float64) : Type 0 where
  pub less : Float64.Float float → Float64.Float float → Bool
  pub minimum : Float64.Float float → Float64.Float float → Float64.Float float
  pub uint32 : Float64.Float float → ℕ
  pub seconds : ℕ → Float64.Float float

-- The share of time that a gateway receives, and that a channel is used to receive and to send.
pub record Utilization (float : Float64) : Type 0 where
  pub gateway_rx : Float64.Float float
  pub channel_rx : ℕ → Float64.Float float
  pub channel_tx : ℕ → Float64.Float float

-- The duty cycle of a European frequency, as a numerator over 1000.
pub duty_of : ℕ → Option ℕ
duty_of freq =
    if leb 863000000 freq && ltb freq 868000000
    then some 10
    else if leb 868000000 freq && ltb freq 868600000
    then some 10
    else if leb 868700000 freq && ltb freq 869200000
    then some 1
    else if leb 869400000 freq && ltb freq 869650000
    then some 100
    else if leb 869700000 freq && ltb freq 870000000
    then some 10
    else none

module _ (float : Float64) (compare : Comparisons float) (usage : Utilization float)
    (uplink : Received float) (is_eu : Bool) where
  open float use {Float, of_ℕ, of_decimal, add, mul, div}
  open compare use {less, minimum, uint32, seconds}

  time_score : ℕ → Float
  time_score airtime = minimum (mul (seconds airtime) (of_ℕ 5)) (of_ℕ 10)

  signal_score : Float
  signal_score =
      let start = if less uplink.snr (of_ℕ 5) then add (of_ℕ 0) (of_ℕ 10) else of_ℕ 0 in
      add start (minimum uplink.weakness (of_ℕ 10))

  -- The European duty cycle, added to a score.
  with_duty : Float → ℕ → ℕ → Option ℕ → Float
  with_duty score freq airtime none =
      let forbidden = add score (of_ℕ 100) in
      if less (of_ℕ 0) (usage.channel_tx freq) then add forbidden (of_ℕ 100) else forbidden
  with_duty score freq airtime (some thousandths) =
      let duty = of_decimal thousandths 3 in
      let used = if less duty (usage.channel_tx freq) then add score (of_ℕ 100) else score in
      add used (minimum (div (div (seconds airtime) duty) (of_ℕ 100)) (of_ℕ 20))

  utilization_score : ℕ → ℕ → Float
  unfolding with_duty duty_of
  utilization_score freq airtime =
      let gateway =
        add (of_ℕ 0) (div (minimum (mul usage.gateway_rx (of_ℕ 50)) (of_ℕ 20)) (of_ℕ 2)) in
      let busy = add (usage.channel_tx freq) (usage.channel_rx freq) in
      let channel = add gateway (div (minimum (mul busy (of_ℕ 200)) (of_ℕ 20)) (of_ℕ 2)) in
      if is_eu then with_duty channel freq airtime (duty_of freq) else channel

  schedule_score : ℕ → Float
  schedule_score conflicts =
      if leb 100 conflicts
      then add (of_ℕ 0) (of_ℕ 100)
      else add (of_ℕ 0) (minimum (of_ℕ (conflicts * 10)) (of_ℕ 30))

  score_of : TxOption → ℕ → ℕ → ℕ
  unfolding time_score signal_score utilization_score schedule_score
  score_of option airtime conflicts =
      let sum =
        add
          (add (add (time_score airtime) signal_score) (utilization_score option.frequency airtime))
          (schedule_score conflicts) in
      uint32 (mul sum (of_ℕ 10))

  airtime_of : Result ℕ → ℕ
  airtime_of (ok time) = time
  airtime_of (err e) = 0

  -- An option that is possible gets an identifier from the schedule, and its score.
  scheduled : TxOption → ℕ → Schedule × (String × ℕ) → Schedule × TxOption
  unfolding score_of
  scheduled option airtime (schedule, (id, conflicts)) =
      (schedule, record option { identifier = codes id; score = score_of option airtime conflicts })

  score_option : Schedule → ℤ → String → TxOption → Schedule × TxOption
  unfolding airtime_of scheduled
  score_option schedule now id option =
      let airtime = airtime_of (compute_lora float 64 option.data_rate option.coding_rate) in
      if airtime == 0
      then (schedule, record option { score = 1000 })
      else scheduled option airtime
          (get_option schedule now id option.timestamp (airtime / 1000 % 2 ^ 32))

  -- computeDownlinkScores: `ids` gives the random identifiers.
  pub compute_downlink_scores :
      ℤ → (ℕ → String) → ℕ → Schedule → List TxOption → Schedule × List TxOption
  unfolding score_option
  compute_downlink_scores now ids n schedule [] = (schedule, [])
  compute_downlink_scores now ids n schedule (option ∷ rest) =
      let (next, scored) = score_option schedule now (ids n) option in
      let (last, others) = compute_downlink_scores now ids (n + 1) next rest in
      (last, scored ∷ others)

-- The identifier of the router in front, where the component has an identity.
identified : Option (List ℕ) → List ℕ → List ℕ
identified none identifier = identifier
identified (some router) identifier = router ++ (b':' ∷ identifier)

-- The identifiers with the router's, and only the options that are legal.
pub legal : Option (List ℕ) → List TxOption → List TxOption
unfolding identified
legal router [] = []
legal router (option ∷ rest) =
    let others = legal router rest in
    let named = record option { identifier = identified router option.identifier } in
    if ltb option.score 1000 then named ∷ others else others

-- buildDownlinkOptions, for a frequency plan that is known, and the identity of the component if it has
-- one.
pub build_downlink_options :
    (float : Float64)
    → Comparisons float
    → Utilization float
    → Option (List ℕ)
    → String
    → Bool
    → Plan
    → Received float
    → ℤ
    → (ℕ → String)
    → Schedule
    → Schedule × List TxOption
unfolding windows plan_for compute_downlink_scores legal
build_downlink_options float compare usage router gateway_id is_activation plan uplink now ids
      schedule =
    let options = windows gateway_id is_activation (plan_for is_activation plan) uplink in
    let (last, scored) =
      compute_downlink_scores float compare usage uplink plan.is_eu now ids 0 schedule options in
    (last, legal router scored)
