-- ===== src/Band.antt =====
-- core/band: the frequency plans, and the settings for adaptive data rate.
-- A plan is what package brocaar/lorawan/band gives for a region, with what the code sets in it.
-- SNRs are in quarters of a decibel, the resolution of a LoRa demodulator: sums and differences of such
-- values are exact in float32, and so is the whole part of a third of them.
pub mod Adr
mod Tests
use ttn.Base.{
  ℕ, zero, suc, ◌+◌, ◌-◌, ◌*◌, ◌/◌, Bool, true, false, ◌||◌, ◌&&◌, List, [], ◌∷◌, Option, none,
  some, String, Result, ok, err, Error, Outcome, done, fails, panics, ltb, leb, ◌==◌, if◌then◌else◌,
  codes, same_codes, get_elem?, str_eq,
}
use ttn.Base.Int.{ℤ, pos, negsuc, pos_part, neg_part, ◌+ℤ◌, ◌-ℤ◌, ltb_ℤ}
use ttn.Types.DataRate.{DataRate, parse_data_rate, to_string}

-- A data rate of a band: LoRa, or FSK, which has no text.
pub data BandDataRate : Type 0 where
  lora : DataRate → BandDataRate
  fsk : ℕ → BandDataRate

pub record AdrConfig : Type 0 where
  pub min_data_rate : ℕ
  pub max_data_rate : ℕ
  pub min_tx_power : ℤ
  pub max_tx_power : ℤ

-- A channel: its frequency and its data rates.
pub record Channel : Type 0 where
  pub frequency : ℕ
  pub data_rates : List ℕ

-- `get_data_rate` is the library's GetDataRate.
pub record FrequencyPlan : Type 0 where
  pub data_rates : List BandDataRate
  pub get_data_rate : DataRate → Result ℕ
  pub tx_power : List ℤ
  pub default_tx_power : ℤ
  pub uplink_channels : List Channel
  pub adr : Option AdrConfig

-- The demodulation floors, by data rate.
floors : List (List ℕ × ℤ)
floors =
    (codes "SF7BW125", negsuc 29)
    ∷ (codes "SF8BW125", negsuc 39)
    ∷ (codes "SF9BW125", negsuc 49)
    ∷ (codes "SF10BW125", negsuc 59)
    ∷ (codes "SF11BW125", negsuc 69)
    ∷ (codes "SF12BW125", negsuc 79)
    ∷ (codes "SF7BW250", negsuc 17)
    ∷ []

find_floor : List (List ℕ × ℤ) → List ℕ → Option ℤ
find_floor [] data_rate = none
find_floor ((k, floor) ∷ rest) data_rate =
    if same_codes k data_rate then some floor else find_floor rest data_rate

pub link_margin : List ℕ → ℤ → ℤ
unfolding find_floor floors
link_margin data_rate snr = elim (find_floor floors data_rate) [
  | some floor ↦ snr -ℤ floor
  | none ↦ pos 0
]

-- An index past the table panics.
pub get_data_rate_string_for_index : FrequencyPlan → ℕ → Outcome (List ℕ)
get_data_rate_string_for_index plan index = elim (get_elem? plan.data_rates index) [
  | none ↦ panics
  | some (lora d) ↦ done (to_string d)
  | some (fsk _) ↦ fails (Error.other "ttn/core: FSK can not be converted to a LoRa DataRate")
]

pub get_data_rate_index_for : FrequencyPlan → List ℕ → Result ℕ
get_data_rate_index_for plan data_rate = elim (parse_data_rate data_rate) [
  | err e ↦ err e
  | ok d ↦ plan.get_data_rate d
]

same_ℤ : ℤ → ℤ → Bool
same_ℤ (pos a) (pos b) = a == b
same_ℤ (negsuc a) (negsuc b) = a == b
same_ℤ a b = false

index_from : ℕ → List ℤ → ℤ → Result ℕ
index_from i [] tx_power = err (Error.other "core/band: the given tx-power does not exist")
index_from i (power ∷ powers) tx_power =
    if same_ℤ power tx_power then ok i else index_from (suc i) powers tx_power

pub get_tx_power_index_for : FrequencyPlan → ℤ → Result ℕ
unfolding index_from same_ℤ
get_tx_power_index_for plan tx_power = index_from 0 plan.tx_power tx_power

-- The first loop of ADRSettings: the steps that are left, and the data rate.
raise_data_rate : ℕ → ℕ → ℕ → ℕ × ℕ
raise_data_rate zero index max = (0, index)
raise_data_rate (suc n) index max =
    let rest = raise_data_rate n (suc index) max in if ltb index max then rest else (suc n, index)

-- The second loop.
lower_tx_power : ℕ → ℤ → ℤ → ℤ
lower_tx_power zero tx_power min = tx_power
lower_tx_power (suc n) tx_power min =
    let rest = lower_tx_power n (tx_power -ℤ pos 3) min in
    if ltb_ℤ min tx_power then rest else tx_power

-- The third loop. The code does not count the steps there: it ends at the maximum. The fuel is the
-- distance to it.
raise_tx_power : ℕ → ℤ → ℤ → ℤ
raise_tx_power zero tx_power max = tx_power
raise_tx_power (suc fuel) tx_power max =
    let rest = raise_tx_power fuel (tx_power +ℤ pos 3) max in
    if ltb_ℤ tx_power max then rest else tx_power

pub at_least : ℤ → ℤ → ℤ
at_least min x = if ltb_ℤ x min then min else x

at_most : ℤ → ℤ → ℤ
at_most max x = if ltb_ℤ max x then max else x

-- The three loops with the two clamps, for `up` steps if the margin is positive, and `down` if it is
-- negative.
pub adjust : AdrConfig → ℕ → ℤ → ℕ → ℕ → ℕ × ℤ
adjust adr index tx_power up down =
    let (left, index') = raise_data_rate up index adr.max_data_rate in
    let lowered = at_least adr.min_tx_power (lower_tx_power left tx_power adr.min_tx_power) in
    let raised =
      if ltb 0 down
      then raise_tx_power (pos_part (adr.max_tx_power -ℤ lowered)) lowered adr.max_tx_power
      else lowered in
    (index', at_most adr.max_tx_power raised)

-- What ADRSettings gives: its error ErrADRUnavailable, another error, or the settings.
pub data AdrSettings : Type 0 where
  unavailable panicked : AdrSettings
  failed : Error → AdrSettings
  settings : List ℕ → ℤ → AdrSettings

-- The settings by the text of the data rate.
pub settings_of : Outcome (List ℕ) → ℤ → AdrSettings
settings_of (done desired) tx_power = settings desired tx_power
settings_of (fails e) tx_power = failed e
settings_of _ tx_power = panicked

-- The settings by the index of the current data rate.
pub choose_settings : FrequencyPlan → AdrConfig → ℤ → ℤ → Result ℕ → AdrSettings
choose_settings plan adr tx_power margin (err e) = failed e
choose_settings plan adr tx_power margin (ok index) =
    let chosen = adjust adr index tx_power (pos_part margin / 12) (neg_part margin / 12) in
    settings_of (get_data_rate_string_for_index plan (chosen.0)) (chosen.1)

pub adr_settings : FrequencyPlan → List ℕ → ℤ → ℤ → ℤ → AdrSettings
adr_settings plan data_rate tx_power snr device_margin = elim plan.adr [
  | none ↦ unavailable
  | some adr ↦
      choose_settings plan adr tx_power (link_margin data_rate snr -ℤ device_margin)
        (get_data_rate_index_for plan data_rate)
]
