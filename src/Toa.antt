-- ===== src/Toa.antt =====
-- utils/toa/toa.go: the time on air of a message, in nanoseconds.
-- The floating-point numbers of the language are a parameter, with the operations that the code uses.
use ttn.Base.{
  ℕ, ◌+◌, ◌*◌, ◌/◌, Bool, ◌&&◌, ◌||◌, List, Result, ok, err, Error, Outcome, done, panics, ◌>>=◌,
  ◌==◌, if◌then◌else◌, String, str_eq,
}
use ttn.Types.DataRate.{DataRate, parse_data_rate}

-- float64 and package math. `of_decimal m e` is the literal m / 10^e, `duration` the conversion to
-- time.Duration, of numbers that are not negative.
pub record Float64 : Type 1 where
  pub Float : Type 0
  pub of_ℕ : ℕ → Float
  pub of_decimal : ℕ → ℕ → Float
  pub add : Float → Float → Float
  pub sub : Float → Float → Float
  pub mul : Float → Float → Float
  pub div : Float → Float → Float
  pub pow : Float → Float → Float
  pub max : Float → Float → Float
  pub ceil : Float → Float
  pub duration : Float → ℕ

abbrev second : ℕ
second = 1_000_000_000

-- ComputeFSK; division by a bit rate of zero panics. The durations stay far below 2^63.
unfoldable pub compute_fsk : ℕ → ℕ → Outcome ℕ
compute_fsk payload_size bitrate =
    if bitrate == 0 then panics else done (second * (payload_size + 5 + 3 + 1 + 2) * 8 / bitrate)

-- The coding rate, by its text.
coding_rate : String → Result ℕ
coding_rate codr =
    if str_eq codr "4/5"
    then ok 1
    else if str_eq codr "4/6"
    then ok 2
    else if str_eq codr "4/7"
    then ok 3
    else if str_eq codr "4/8"
    then ok 4
    else err (Error.other "Invalid Codr")

-- Whether the low data rate optimisation is on.
low_data_rate : DataRate → Bool
low_data_rate dr = dr.bandwidth == 125 && (dr.spreading_factor == 11 || dr.spreading_factor == 12)

module _ (float : Float64) where
  open float use {Float, of_ℕ, of_decimal, add, sub, mul, div, pow, max as fmax, ceil, duration}

  -- The symbols of the payload, for a payload of `size` bytes.
  payload_symbols : ℕ → ℕ → DataRate → Float
  payload_symbols size cr dr =
      let de = if low_data_rate dr then of_ℕ 1 else of_ℕ 0 in
      let sf = of_ℕ dr.spreading_factor in
      let bits =
        sub (add (add (sub (mul (of_ℕ 8) (of_ℕ size)) (mul (of_ℕ 4) sf)) (of_ℕ 28)) (of_ℕ 16))
          (mul (of_ℕ 20) (of_ℕ 0)) in
      let symbols = ceil (div bits (mul (of_ℕ 4) (sub sf (mul (of_ℕ 2) de)))) in
      add (of_ℕ 8) (fmax (of_ℕ 0) (mul symbols (add (of_ℕ cr) (of_ℕ 4))))

  unfoldable pub compute_lora : ℕ → List ℕ → String → Result ℕ
  unfolding coding_rate payload_symbols low_data_rate
  compute_lora size datr codr = do
    cr ← coding_rate codr
    dr ← parse_data_rate datr
    let t_sym = div (pow (of_ℕ 2) (of_ℕ dr.spreading_factor)) (of_ℕ dr.bandwidth)
    ok (
        duration
          (mul (mul (add (payload_symbols size cr dr) (of_decimal 1225 2)) t_sym) (of_ℕ 1_000_000)))
