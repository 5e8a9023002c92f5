-- ===== src/NetworkServer/Handlers.antt =====
-- core/networkserver/uplink.go, downlink.go and the second half of activation.go: the handlers that
-- read, change and store a device.
pub mod Laws
pub mod Answers
pub mod Activations
use ttn.Base.{
  ℕ, suc, ◌+◌, ◌%◌, ◌^◌, Bool, true, false, not, ◌&&◌, ◌||◌, List, [], ◌∷◌, Option, none, some,
  String, Result, ok, err, Error, Outcome, done, fails, panics, blocks, ◌==◌, if◌then◌else◌, str_eq,
}
use ttn.Base.Int.{pos}
use ttn.Band.{FrequencyPlan}
use ttn.Messages.{
  Metadata, MacMessage, Content, DownlinkOption, DownlinkMessage, DeduplicatedUplinkMessage,
}
use ttn.NetworkServer.Device.{Device, Frame, AdrSettings, Faults, clear}
use ttn.NetworkServer.Mac.{MacCodec, Uplink, Session, handle_uplink_mac}
use ttn.NetworkServer.Adr.{Adapted, handle_downlink_adr}

-- What the network server calls: the device store, its histories with the calls that fail, and
-- package brocaar/lorawan. `read` gives the content of a payload, never `missing`; `write_down`
-- gives the bytes of an unconfirmed downlink, `sign` those of a downlink, confirmed or not, with its
-- MIC under a key.
pub record Env : Type 0 where
  pub device : ℕ → ℕ → Result Device
  pub set_error : Device → Option Error
  pub history : ℕ → ℕ → List Frame
  pub faults : Faults
  pub mac_codec : MacCodec
  pub percent : ℕ → ℕ → ℕ
  pub get_plan : String → Result FrequencyPlan
  pub read : List ℕ → Result Content
  pub write_down : MacMessage → Result (List ℕ)
  pub sign : MacMessage → Bool → ℕ → Result (List ℕ)

-- What a handler leaves: how it ended, and, if it got so far, the device that it passes to Set and the
-- history of its frames.
-- In HandleUplink and HandleDownlink an error of Set is logged: it is also assigned to `err`, but the
-- results are not named, so that the assignment comes too late to be returned.
pub record Handled (A : Type 0) : Type 0 where
  pub end : Outcome A
  pub saved : Option (Device × List Frame)

-- The full counter of the metadata replaces the one that was read, unless it is 0.
unfoldable pub set_f_cnt : ℕ → Content → Content
set_f_cnt f_cnt (Content.mac m confirmed) =
    Content.mac (if f_cnt == 0 then m else record m { f_cnt = f_cnt }) confirmed
set_f_cnt f_cnt content = content

read_content : Env → List ℕ → ℕ → Result Content
read_content env payload f_cnt = elim (env.read payload) [
  | err e ↦ err e
  | ok content ↦ ok (set_f_cnt f_cnt content)
]

-- UnmarshalPayload of an uplink, by its metadata.
unfoldable pub unmarshal_uplink : Env → List ℕ → Option Metadata → Content → Result Content
unfolding read_content
unmarshal_uplink env payload (some metadata) Content.missing =
    read_content env payload metadata.f_cnt
unmarshal_uplink env payload metadata content = ok content

-- UnmarshalPayload of a downlink, by the counter of its LoRaWAN configuration.
unfoldable pub unmarshal_downlink : Env → List ℕ → Option ℕ → Content → Result Content
unfolding read_content
unmarshal_downlink env payload (some f_cnt) Content.missing = read_content env payload f_cnt
unmarshal_downlink env payload f_cnt content = ok content

-- Without LoRaWAN metadata, which the broker always sets, a LinkCheckReq would make the code panic.
unfoldable pub uplink_of : DeduplicatedUplinkMessage → MacMessage → Bool → Uplink
uplink_of message mac confirmed = record {
  mac = mac;
  is_confirmed = confirmed;
  data_rate = elim message.lorawan [ some m ↦ m.data_rate | none ↦ [] ];
  frequency_plan = elim message.lorawan [ some m ↦ m.frequency_plan | none ↦ "" ];
}

-- The MAC payload of the answer, before the MAC commands.
unfoldable pub prepared_answer : MacMessage → Device → MacMessage
prepared_answer mac dev = record {
  dev_addr = mac.dev_addr;
  f_cnt = dev.f_cnt_down;
  f_port = mac.f_port;
  ack = false;
  adr = false;
  adr_ack_req = false;
  f_opts = [];
}

unfoldable pub start_session : Env → DeduplicatedUplinkMessage → MacMessage → Device → Session
start_session env message mac dev = record {
  device = record dev { f_cnt_up = mac.f_cnt };
  history = env.history dev.app_eui dev.dev_eui;
  answer = prepared_answer mac dev;
  gateways = message.gateway_metadata;
}

template_option : Device → Option DownlinkMessage → Option DownlinkOption
template_option dev none = none
template_option dev (some template) = elim template.downlink_option [
  | none ↦ none
  | some option ↦ some (record option {
    lorawan_f_cnt = elim option.lorawan_f_cnt [ none ↦ none | some _ ↦ some dev.f_cnt_down ];
  })
]

-- Without a transmission there is no answer.
template_with :
    DeduplicatedUplinkMessage → MacMessage → List ℕ → Option DownlinkOption → Option DownlinkMessage
template_with message answer payload none = none
template_with message answer payload (some option) = some (record {
  payload = payload;
  message = Content.mac answer false;
  app_eui = message.app_eui;
  dev_eui = message.dev_eui;
  app_id = message.app_id;
  dev_id = message.dev_id;
  downlink_option = some option;
})

-- The answer that goes with the message.
unfoldable pub template_of :
    DeduplicatedUplinkMessage → Device → MacMessage → List ℕ → Option DownlinkMessage
unfolding template_option template_with
template_of message dev answer payload =
    template_with message answer payload (template_option dev message.response_template)

marshaled :
    DeduplicatedUplinkMessage
    → MacMessage
    → Bool
    → Device
    → Session
    → Result (List ℕ)
    → Outcome DeduplicatedUplinkMessage
marshaled message mac confirmed dev s (err e) = fails e
marshaled message mac confirmed dev s (ok payload) = done (record message {
  message = Content.mac mac confirmed;
  gateway_metadata = s.gateways;
  response_template = template_of message dev s.answer payload;
})

finish_uplink :
    Env
    → DeduplicatedUplinkMessage
    → MacMessage
    → Bool
    → Device
    → Session
    → Result (Unit {0})
    → Outcome DeduplicatedUplinkMessage
unfolding marshaled
finish_uplink env message mac confirmed dev s (err e) = fails e
finish_uplink env message mac confirmed dev s (ok _) =
    marshaled message mac confirmed dev s (env.write_down s.answer)

failed : {A : Type 0} → Error → Handled A
failed e = record { end = fails e; saved = none }

with_device :
    Env → DeduplicatedUplinkMessage → MacMessage → Bool → Device → Handled DeduplicatedUplinkMessage
unfolding finish_uplink
with_device env message mac confirmed dev =
    let run =
      handle_uplink_mac env.mac_codec env.faults (uplink_of message mac confirmed)
        (start_session env message mac dev) in
    record {
      end = finish_uplink env message mac confirmed dev run.0 run.1;
      saved = some (run.0.device, run.0.history);
    }

to_session :
    Env
    → DeduplicatedUplinkMessage
    → MacMessage
    → Bool
    → Result Device
    → Handled DeduplicatedUplinkMessage
unfolding with_device failed
to_session env message mac confirmed (err e) = failed e
to_session env message mac confirmed (ok dev) = with_device env message mac confirmed dev

with_uplink_content :
    Env → DeduplicatedUplinkMessage → Result Content → Handled DeduplicatedUplinkMessage
unfolding to_session failed
with_uplink_content env message (err e) = failed e
with_uplink_content env message (ok (Content.mac mac confirmed)) =
    to_session env message mac confirmed (env.device message.app_eui message.dev_eui)
with_uplink_content env message (ok content) =
    failed (Error.invalid_argument "Uplink" "does not contain a MAC payload")

unfoldable pub handle_uplink : Env → DeduplicatedUplinkMessage → Handled DeduplicatedUplinkMessage
unfolding with_uplink_content
handle_uplink env message =
    with_uplink_content env message
      (unmarshal_uplink env message.payload message.lorawan message.message)

-- The downlink with the full counter and its MIC.
signed : DownlinkMessage → MacMessage → Bool → Result (List ℕ) → Outcome DownlinkMessage
signed message mac confirmed (err e) = fails e
signed message mac confirmed (ok payload) =
    done (record message { payload = payload; message = Content.mac mac confirmed })

-- The downlink counter goes up before the payload is marshaled, modulo 2^32.
finish_downlink :
    Env
    → DownlinkMessage
    → Bool
    → Device
    → AdrSettings
    → MacMessage
    → Outcome (Unit {0})
    → Handled DownlinkMessage
unfolding signed
finish_downlink env message confirmed dev adr mac (done _) =
    let mac' = record mac { f_cnt = dev.f_cnt_down } in
    record {
      end = signed message mac' confirmed (env.sign mac' confirmed dev.nwk_s_key);
      saved = some (
        record dev { adr = adr; f_cnt_down = (dev.f_cnt_down + 1) % 2 ^ 32 },
        env.history dev.app_eui dev.dev_eui,
      );
    }
finish_downlink env message confirmed dev adr mac (fails e) = record {
  end = fails e;
  saved = some (record dev { adr = adr }, env.history dev.app_eui dev.dev_eui);
}
finish_downlink env message confirmed dev adr mac panics = record {
  end = panics;
  saved = some (record dev { adr = adr }, env.history dev.app_eui dev.dev_eui);
}
finish_downlink env message confirmed dev adr mac blocks = record {
  end = blocks;
  saved = some (record dev { adr = adr }, env.history dev.app_eui dev.dev_eui);
}

-- With the settings of ADR.
with_adapted : Env → DownlinkMessage → Bool → Device → Adapted → Handled DownlinkMessage
unfolding finish_downlink
with_adapted env message confirmed dev adapted =
    finish_downlink env message confirmed dev adapted.adr adapted.mac adapted.end

to_device : Env → DownlinkMessage → MacMessage → Bool → Device → Handled DownlinkMessage
unfolding failed with_adapted
to_device env message mac confirmed dev =
    if not (str_eq dev.app_id message.app_id) || not (str_eq dev.dev_id message.dev_id)
    then failed (Error.invalid_argument "Downlink" "AppID and DevID do not match AppEUI and DevEUI")
    else if not (mac.dev_addr == dev.dev_addr)
    then record {
      end = fails (Error.invalid_argument "Downlink" "DevAddr does not match device");
      saved = some (dev, env.history dev.app_eui dev.dev_eui);
    }
    else with_adapted env message confirmed dev (
        handle_downlink_adr env.mac_codec env.percent env.get_plan env.faults
          (env.history dev.app_eui dev.dev_eui) dev mac)

with_found_device :
    Env → DownlinkMessage → MacMessage → Bool → Result Device → Handled DownlinkMessage
unfolding failed to_device
with_found_device env message mac confirmed (err e) = failed e
with_found_device env message mac confirmed (ok dev) = to_device env message mac confirmed dev

with_downlink_content : Env → DownlinkMessage → Result Content → Handled DownlinkMessage
unfolding failed with_found_device
with_downlink_content env message (err e) = failed e
with_downlink_content env message (ok (Content.mac mac confirmed)) =
    with_found_device env message mac confirmed (env.device message.app_eui message.dev_eui)
with_downlink_content env message (ok content) =
    failed (Error.invalid_argument "Downlink" "does not contain a MAC payload")

lorawan_f_cnt : DownlinkMessage → Option ℕ
lorawan_f_cnt message = elim message.downlink_option [
  | none ↦ none
  | some option ↦ option.lorawan_f_cnt
]

unfoldable pub handle_downlink : Env → DownlinkMessage → Handled DownlinkMessage
unfolding failed with_downlink_content lorawan_f_cnt
handle_downlink env message =
    with_downlink_content env message
      (unmarshal_downlink env message.payload (lorawan_f_cnt message) message.message)

-- The LoRaWAN metadata of an activation.
pub record ActivationMetadata : Type 0 where
  pub app_eui : ℕ
  pub dev_eui : ℕ
  pub dev_addr : ℕ
  pub nwk_s_key : ℕ
  pub frequency_plan : String

-- The session starts again: only the band and the margin of ADR are kept.
unfoldable pub activated : ActivationMetadata → Device → Device
activated meta dev =
    let band = if str_eq meta.frequency_plan "" then dev.adr.band else meta.frequency_plan in
    record dev {
      dev_addr = meta.dev_addr;
      nwk_s_key = meta.nwk_s_key;
      f_cnt_up = 0;
      f_cnt_down = 0;
      adr = record {
        band = band;
        margin = dev.adr.margin;
        send_req = false;
        failed = 0;
        data_rate = [];
        tx_power = pos 0;
        nb_trans = 0;
      };
    }

-- The history is cleared after the device is stored.
store_cleared : Device → List Frame × Result (Unit {0}) → Handled (Unit {0})
store_cleared dev (history, err e) = record { end = fails e; saved = some (dev, history) }
store_cleared dev (history, ok _) = record { end = done tt; saved = some (dev, history) }

-- Here an error of Set is returned.
store_activated : Env → Device → Option Error → Handled (Unit {0})
unfolding store_cleared
store_activated env dev (some e) = record {
  end = fails e;
  saved = some (dev, env.history dev.app_eui dev.dev_eui);
}
store_activated env dev none =
    store_cleared dev (clear env.faults (env.history dev.app_eui dev.dev_eui))

activate_found : Env → ActivationMetadata → Result Device → Handled (Unit {0})
unfolding store_activated failed
activate_found env meta (err e) = failed e
activate_found env meta (ok dev) =
    let dev' = activated meta dev in store_activated env dev' (env.set_error dev')

-- HandleActivate with the two levels of metadata; `Unit` stands for the message, which it returns.
unfoldable pub handle_activate : Env → Option (Option ActivationMetadata) → Handled (Unit {0})
unfolding failed activate_found
handle_activate env none = failed (Error.invalid_argument "Activation" "missing ActivationMetadata")
handle_activate env (some none) =
    failed (Error.invalid_argument "Activation" "missing LoRaWAN ActivationMetadata")
handle_activate env (some (some meta)) =
    activate_found env meta (env.device meta.app_eui meta.dev_eui)
