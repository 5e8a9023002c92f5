-- ===== src/NetworkServer/Adr.antt =====
-- core/networkserver/adr.go: the settings that a device is asked for in a downlink.
pub mod Laws
pub mod Loss
use ttn.Base.{
  ℕ, suc, ◌+◌, ◌-◌, ◌*◌, ◌%◌, ◌^◌, Bool, true, false, not, ◌&&◌, ◌||◌, List, [], ◌∷◌, ◌++◌, Option,
  none, some, String, Result, ok, err, Error, Outcome, done, fails, panics, ◌==◌, ltb, leb,
  if◌then◌else◌, length, take, same_codes, str_eq, codes,
}
use ttn.Base.Int.{ℤ, pos, negsuc, ltb_ℤ}
use ttn.Band.{
  Channel, FrequencyPlan, AdrSettings as Chosen, adr_settings, get_data_rate_index_for,
  get_tx_power_index_for, unavailable, panicked, failed, settings,
}
use ttn.Messages.{MacCommand, MacMessage}
use ttn.NetworkServer.Device.{Device, Frame, AdrSettings, Faults, get, frames_history_size}
use ttn.NetworkServer.Mac.{MacCodec}

-- The loop of maxSNR.
max_from : ℤ → List Frame → ℤ
max_from max [] = max
max_from max (f ∷ fs) = max_from (if ltb_ℤ max f.snr then f.snr else max) fs

pub max_snr : List Frame → ℤ
unfolding max_from
max_snr [] = pos 0
max_snr (f ∷ fs) = max_from f.snr (f ∷ fs)

last_f_cnt : ℕ → List Frame → ℕ
last_f_cnt last [] = last
last_f_cnt last (f ∷ fs) = last_f_cnt f.f_cnt fs

-- The counters of a window, of uint32: the packets that were sent, and those that are missing.
pub sent_packets : Frame → List Frame → ℕ
unfolding last_f_cnt
sent_packets f fs = (f.f_cnt + 2 ^ 32 - last_f_cnt f.f_cnt fs + 1) % 2 ^ 32

pub lost_packets : Frame → List Frame → ℕ
lost_packets f fs = (sent_packets f fs + 2 ^ 32 - length (f ∷ fs) % 2 ^ 32) % 2 ^ 32

-- `percent a b` is the floating-point computation of a hundred times a / b, rounded to the nearest.
pub loss_percentage : (ℕ → ℕ → ℕ) → List Frame → ℕ
loss_percentage percent [] = 0
loss_percentage percent (f ∷ fs) = percent (lost_packets f fs) (sent_packets f fs)

-- The switch on the loss, and the limits after it.
pub next_nb_trans : ℕ → ℕ → ℕ
next_nb_trans loss nb_trans =
    let next =
      if leb loss 5
      then nb_trans - 1
      else if leb loss 10
      then nb_trans
      else if leb loss 30
      then nb_trans + 1
      else nb_trans + 2 in
    let raised = if ltb next 1 then 1 else next in if ltb 3 raised then 3 else raised

has_data_rate : ℕ → List ℕ → Bool
has_data_rate index [] = false
has_data_rate index (d ∷ ds) = (d == index) || has_data_rate index ds

-- The channels that have the data rate.
pub channel_mask : ℕ → List Channel → List Bool
unfolding has_data_rate
channel_mask index [] = []
channel_mask index (c ∷ cs) = has_data_rate index c.data_rates ∷ channel_mask index cs

-- The options without the command that an earlier call has added.
pub without : ℕ → List MacCommand → List MacCommand
without cid [] = []
without cid (c ∷ cs) = let rest = without cid cs in if c.cid == cid then rest else c ∷ rest

-- float32(dev.ADR.Margin), in quarters of a decibel.
quarters : ℤ → ℤ
quarters (pos n) = pos (4 * n)
quarters (negsuc n) = negsuc (4 * n + 3)

same_ℤ : ℤ → ℤ → Bool
same_ℤ (pos a) (pos b) = a == b
same_ℤ (negsuc a) (negsuc b) = a == b
same_ℤ a b = false

-- The defaults of the settings.
default_margin : AdrSettings → AdrSettings
unfolding same_ℤ
default_margin adr = if same_ℤ adr.margin (pos 0) then record adr { margin = pos 15 } else adr

default_power : FrequencyPlan → AdrSettings → AdrSettings
unfolding same_ℤ
default_power plan adr =
    if same_ℤ adr.tx_power (pos 0) then record adr { tx_power = plan.default_tx_power } else adr

default_nb_trans : AdrSettings → AdrSettings
default_nb_trans adr = if adr.nb_trans == 0 then record adr { nb_trans = 1 } else adr

-- An error of the power leaves the index of the default, or 0.
pub power_index : FrequencyPlan → ℤ → ℕ
power_index plan tx_power = elim (get_tx_power_index_for plan tx_power) [
  | ok i ↦ i
  | err e ↦ elim (get_tx_power_index_for plan plan.default_tx_power) [ ok i ↦ i | err e ↦ 0 ]
]

-- What handleDownlinkADR leaves: the settings of the device, the MAC payload, and how it ended.
pub record Adapted : Type 0 where
  pub adr : AdrSettings
  pub mac : MacMessage
  pub end : Outcome (Unit {0})

unchanged : AdrSettings → MacMessage → Adapted
unchanged adr mac = record { adr = adr; mac = mac; end = done tt }

failure : AdrSettings → MacMessage → Error → Adapted
failure adr mac e = record { adr = adr; mac = mac; end = fails e }

-- The next number of transmissions: it changes only if the other settings stay.
pub choose_nb_trans : (ℕ → ℕ → ℕ) → Bool → List Frame → List ℕ → ℤ → AdrSettings → ℕ
unfolding same_ℤ
choose_nb_trans percent counts frames data_rate tx_power adr =
    if same_codes adr.data_rate data_rate && same_ℤ adr.tx_power tx_power && counts
    then next_nb_trans (loss_percentage percent frames) adr.nb_trans
    else adr.nb_trans

-- The LinkADRReq, with uint8 fields. A mask of more than 16 channels would panic.
pub link_adr_req : MacCodec → FrequencyPlan → ℕ → ℤ → ℕ → MacCommand
link_adr_req codec plan index tx_power nb_trans = record {
  cid = codec.link_adr_req;
  payload =
      codec.link_adr_req_payload (index % 2 ^ 8) (power_index plan tx_power % 2 ^ 8)
        (nb_trans % 2 ^ 8) (channel_mask index plan.uplink_channels);
}

-- Nothing changes.
is_settled : List ℕ → ℤ → ℕ → AdrSettings → Bool
unfolding same_ℤ
is_settled data_rate tx_power nb_trans adr =
    same_codes adr.data_rate data_rate && same_ℤ adr.tx_power tx_power && (adr.nb_trans == nb_trans)

-- The new settings; the rest of the answer stays.
pub request : MacCodec → MacCommand → List ℕ → ℤ → ℕ → AdrSettings → MacMessage → Adapted
request codec command data_rate tx_power nb_trans adr mac = record {
  adr = record adr { data_rate = data_rate; tx_power = tx_power; nb_trans = nb_trans };
  mac = record mac { f_opts = without codec.link_adr_req mac.f_opts ++ (command ∷ []) };
  end = done tt;
}

module _ (codec : MacCodec) (percent : ℕ → ℕ → ℕ) where
  -- From the index of the data rate on.
  adapt :
      Bool → List Frame → FrequencyPlan → List ℕ → ℤ → AdrSettings → MacMessage → Result ℕ → Adapted
  unfolding is_settled unchanged failure
  adapt counts frames plan data_rate tx_power adr mac (err e) = failure adr mac e
  adapt counts frames plan data_rate tx_power adr mac (ok index) =
      let nb_trans = choose_nb_trans percent counts frames data_rate tx_power adr in
      if is_settled data_rate tx_power nb_trans adr
      then unchanged adr mac
      else request codec (link_adr_req codec plan index tx_power nb_trans) data_rate tx_power
          nb_trans adr mac

  -- From the calculated settings on.
  calculate : Bool → List Frame → FrequencyPlan → AdrSettings → MacMessage → Chosen → Adapted
  unfolding unchanged failure adapt
  calculate counts frames plan adr mac unavailable = unchanged adr mac
  calculate counts frames plan adr mac panicked = record { adr = adr; mac = mac; end = panics }
  calculate counts frames plan adr mac (failed e) = failure adr mac e
  calculate counts frames plan adr mac (settings data_rate tx_power) =
      adapt counts frames plan data_rate tx_power adr mac (get_data_rate_index_for plan data_rate)

  -- From the frequency plan on.
  with_plan : Bool → List Frame → AdrSettings → MacMessage → Result FrequencyPlan → Adapted
  unfolding failure calculate default_power default_nb_trans quarters
  with_plan counts frames adr mac (err e) = failure adr mac e
  with_plan counts frames adr mac (ok plan) =
      let set = default_nb_trans (default_power plan adr) in
      calculate counts frames plan set mac
        (adr_settings plan set.data_rate set.tx_power (max_snr frames) (quarters set.margin))

  module _ (get_plan : String → Result FrequencyPlan) where
    -- From the frames on: a full window is needed, a data rate and a band. `get_plan` is band.Get.
    with_frames : Bool → AdrSettings → MacMessage → Result (List Frame) → Adapted
    unfolding unchanged failure with_plan default_margin
    with_frames counts adr mac (err e) = failure adr mac e
    with_frames counts adr mac (ok frames) =
        if ltb (length frames) frames_history_size
        then unchanged adr mac
        else if same_codes adr.data_rate []
        then unchanged adr mac
        else if str_eq adr.band ""
        then unchanged (default_margin adr) mac
        else with_plan counts (take frames_history_size frames) (default_margin adr) mac
            (get_plan adr.band)

    unfoldable pub handle_downlink_adr : Faults → List Frame → Device → MacMessage → Adapted
    unfolding unchanged with_frames
    handle_downlink_adr faults history dev mac =
        if not dev.adr.send_req
        then unchanged dev.adr mac
        else if ltb 0 dev.adr.failed
        then unchanged dev.adr mac
        else with_frames (not dev.options.disable_f_cnt_check) dev.adr mac (get faults history)
