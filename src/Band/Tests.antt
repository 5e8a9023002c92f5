-- ===== src/Band/Tests.antt =====
-- A concrete plan.
use ttn.Base.{refl, [], ◌∷◌, some, ok, codes, arith, strip_prefix, decimal, same_codes}
use ttn.Base.Int.{pos, negsuc, ◌-ℤ◌, ◌+ℤ◌, ◌≤ℤ◌}
use ttn.Types.DataRate.{parse_data_rate, to_string}
use ttn.Band.{
  AdrConfig, FrequencyPlan, BandDataRate, adjust, at_least, adr_settings, choose_settings,
  get_data_rate_index_for, link_margin, settings_of, get_data_rate_string_for_index,
  raise_data_rate, lower_tx_power, raise_tx_power, at_most,
}
use ttn.Band.Adr.{adr_settings_bounds}

abbrev eu : AdrConfig
eu = record { min_data_rate = 0; max_data_rate = 5; min_tx_power = pos 2; max_tx_power = pos 14 }

abbrev eu_plan : FrequencyPlan
eu_plan = record {
  data_rates = BandDataRate.lora (record { spreading_factor = 12; bandwidth = 125 }) ∷ [];
  get_data_rate = λ d. ok 0;
  tx_power = pos 14 ∷ [];
  default_tx_power = pos 14;
  uplink_channels = [];
  adr = some eu;
}

adr_settings_bounds_example : (pos 2 ≤ℤ pos 14) × (pos 14 ≤ℤ pos 14)
unfolding adr_settings choose_settings get_data_rate_index_for link_margin settings_of
    get_data_rate_string_for_index parse_data_rate to_string adjust raise_data_rate lower_tx_power
    raise_tx_power at_least at_most strip_prefix decimal ◌-ℤ◌ same_codes ◌+ℤ◌
adr_settings_bounds_example =
    adr_settings_bounds eu_plan eu (codes "SF12BW125") (pos 11) (negsuc 99) (pos 60)
      (codes "SF12BW125") (pos 14) refl (omega arith) refl
