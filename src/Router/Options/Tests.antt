-- ===== src/Router/Options/Tests.antt =====
-- An uplink of a join, with numbers in place of floats.
use ttn.Base.{
  ℕ, ◌+◌, ◌-◌, ◌*◌, ◌/◌, ◌^◌, ◌≤◌, true, String, some, ok, max, min, ltb, codes, length, All,
}
use ttn.Base.Int.{pos}
use ttn.Toa.{Float64}
use ttn.Router.Schedule.{new_schedule}
use ttn.Router.Options.{Received, Plan, Comparisons, Utilization, build_downlink_options}
use ttn.Router.Options.Laws.{IsOffer, build_downlink_options-IsOffer}

abbrev float : Float64
float = record {
  Float = ℕ;
  of_ℕ = λ n. n;
  of_decimal = λ m e. m / 10 ^ e;
  add = λ a b. a + b;
  sub = λ a b. a - b;
  mul = λ a b. a * b;
  div = λ a b. a / b;
  pow = λ a b. a ^ b;
  max = λ a b. max a b;
  ceil = λ a. a;
  duration = λ a. a;
}

abbrev compare : Comparisons float
compare = record {
  less = λ a b. ltb a b;
  minimum = λ a b. min a b;
  uint32 = λ a. a;
  seconds = λ n. n / 1_000_000_000;
}

abbrev usage : Utilization float
usage = record { gateway_rx = 0; channel_rx = λ f. 0; channel_tx = λ f. 0 }

abbrev uplink : Received float
uplink = record {
  timestamp = 4_294_000_000;
  frequency = 868_100_000;
  data_rate = codes "SF7BW125";
  coding_rate = "4/5";
  snr = 7;
  weakness = 5;
}

abbrev plan : Plan
plan = record {
  is_eu = true;
  rx2_frequency = 869_525_000;
  rx2_data_rate = 3;
  default_tx_power = pos 14;
  join_accept_delay_1 = 5_000_000_000;
  join_accept_delay_2 = 6_000_000_000;
  receive_delay_1 = 1_000_000_000;
  receive_delay_2 = 2_000_000_000;
  lora_text = λ i. codes "SF12BW125";
  data_rate_text = λ i. ok (codes "SF7BW125");
  rx1_frequency = λ f. ok f;
  data_rate_index = λ dr. ok 5;
  rx1_data_rate = λ i. ok i;
}

abbrev id_of : ℕ → String
id_of n = "id"

build_downlink_options-IsOffer_example :
    All
      (IsOffer (some (codes "r")) "g" true plan uplink)
      (build_downlink_options float compare usage
        (some (codes "r"))
        "g"
        true
        plan
        uplink
        (pos 0)
        id_of
        new_schedule).1
    × (length
          (build_downlink_options float compare usage
            (some (codes "r"))
            "g"
            true
            plan
            uplink
            (pos 0)
            id_of
            new_schedule).1
        ≤ 2)
build_downlink_options-IsOffer_example =
    build_downlink_options-IsOffer float compare usage (some (codes "r")) "g" true plan uplink
      (pos 0) id_of new_schedule
