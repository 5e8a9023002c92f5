-- ===== src/Handler/ConvertLorawan.antt =====
-- core/handler/convert_lorawan.go: from and to the frames of LoRaWAN.
pub mod Uplinks
pub mod Downlinks
pub mod Frames
use ttn.Base.{
  ℕ, ◌<◌, Bool, true, false, not, ◌&&◌, List, [], ◌∷◌, Option, none, some, Result, ok, err, Error,
  ltb, ◌==◌, length, if◌then◌else◌,
}
use ttn.Lorawan.{MType, MacPayload, Payload, Body, PhyPayload, Codec}
use ttn.Messages.{Metadata, DownlinkOption, DownlinkMessage, DeduplicatedUplinkMessage}
use ttn.Broker.Uplink.{with_f_cnt}
use ttn.Handler.Types.{AppDownlink, AppUplink, Device, EventData, DeviceEvent, Verdict}

-- What ConvertFromLoRaWAN leaves: its end, the message and the device as they then are, and the events
-- it has sent.
pub record FromLorawan : Type 0 where
  pub verdict : Verdict
  pub up : AppUplink
  pub dev : Device
  pub events : List DeviceEvent

abbrev confirmed_up : MType → Bool
confirmed_up MType.confirmed_data_up = true
confirmed_up _ = false

-- A downlink that waits to be acknowledged, or has been sent, is forgotten.
unfoldable pub clear_pending :
    AppUplink → Bool → Device → Option AppDownlink → Device × List DeviceEvent
clear_pending up ack dev none = (dev, [])
clear_pending up ack dev (some pending) =
    if up.is_retry
    then (dev, [])
    else if not pending.confirmed
    then (record dev { current_downlink = none }, [])
    else if ack
    then (
      record dev { current_downlink = none },
      record { app_id = up.app_id; dev_id = up.dev_id; data_of = EventData.downlink_ack pending }
          ∷ [],
    )
    else (dev, [])

-- macPayload.FRMPayload, which decryption changes through the frame.
unfoldable pub frm_payload_of : MacPayload → Body → List Payload
frm_payload_of original (Body.mac payload) = payload.frm_payload
frm_payload_of original _ = original.frm_payload

abbrev stopped : Error → AppUplink → Device → FromLorawan
stopped e up dev = record { verdict = Verdict.fails e; up = up; dev = dev; events = [] }

unfoldable pub received : MacPayload → AppUplink → Device → FromLorawan
unfolding clear_pending
received payload up dev =
    let (after, events) = clear_pending up payload.ack dev dev.current_downlink in
    record { verdict = Verdict.goes_on; up = up; dev = after; events = events }

-- macPayload.FRMPayload[0], which must be data.
unfoldable pub with_data : MacPayload → AppUplink → Device → List Payload → FromLorawan
unfolding received
with_data payload up dev [] = record { verdict = Verdict.panics; up = up; dev = dev; events = [] }
with_data payload up dev (Payload.bytes bytes ∷ _) =
    received payload (record up { payload_raw = bytes }) dev
with_data payload up dev (Payload.commands ∷ _) =
    stopped (Error.invalid_argument "Uplink FRMPayload" "must be of type *lorawan.DataPayload") up
      dev

unfoldable pub decrypted : MacPayload → AppUplink → Device → Result PhyPayload → FromLorawan
unfolding with_data frm_payload_of
decrypted payload up dev (err e) = stopped (Error.internal "Could not decrypt payload") up dev
decrypted payload up dev (ok phy) = with_data payload up dev (frm_payload_of payload phy.body)

module _ (codec : Codec) where
  unfoldable pub on_port : PhyPayload → MacPayload → AppUplink → Device → Option ℕ → FromLorawan
  unfolding received decrypted
  on_port phy payload up dev none = received payload up dev
  on_port phy payload up dev (some port) =
      let on = record up { f_port = port } in
      if not (port == 0) && (length payload.frm_payload == 1)
      then decrypted payload on dev (codec.decrypt_frm_payload phy dev.app_s_key)
      else received payload on dev

  -- After the MIC: `phy` holds the counter of the metadata.
  unfoldable pub accepted : PhyPayload → MacPayload → ℕ → AppUplink → Device → FromLorawan
  unfolding on_port
  accepted phy payload f_cnt up dev =
      let counted = record up {
        hardware_serial = dev.dev_eui;
        f_cnt = f_cnt;
        is_retry = if dev.f_cnt_up == f_cnt then true else up.is_retry;
        confirmed = if confirmed_up phy.m_type then true else up.confirmed;
      } in
      on_port phy payload counted (record dev { f_cnt_up = f_cnt }) payload.f_port

  unfoldable pub on_mic :
      PhyPayload → MacPayload → ℕ → AppUplink → Device → Result Bool → FromLorawan
  unfolding accepted
  on_mic phy payload f_cnt up dev (err e) = stopped e up dev
  on_mic phy payload f_cnt up dev (ok false) =
      stopped (Error.not_found "device that validates MIC") up dev
  on_mic phy payload f_cnt up dev (ok true) = accepted phy payload f_cnt up dev

  unfoldable pub on_body : PhyPayload → ℕ → AppUplink → Device → Body → FromLorawan
  unfolding on_mic with_f_cnt
  on_body phy f_cnt up dev (Body.mac payload) =
      let counted = with_f_cnt phy payload f_cnt in
      on_mic counted payload f_cnt up dev (codec.validate_mic counted dev.nwk_s_key)
  on_body phy f_cnt up dev _ =
      stopped (Error.invalid_argument "Uplink" "does not contain a MAC payload") up dev

  unfoldable pub on_frame : ℕ → AppUplink → Device → Result PhyPayload → FromLorawan
  unfolding on_body
  on_frame f_cnt up dev (err e) = stopped e up dev
  on_frame f_cnt up dev (ok phy) = on_body phy f_cnt up dev phy.body

  unfoldable pub on_metadata : List ℕ → AppUplink → Device → Option Metadata → FromLorawan
  unfolding on_frame
  on_metadata bytes up dev none =
      stopped (Error.invalid_argument "Uplink" "does not contain LoRaWAN metadata") up dev
  on_metadata bytes up dev (some metadata) = on_frame metadata.f_cnt up dev (codec.unmarshal bytes)

  -- ConvertFromLoRaWAN.
  unfoldable pub convert_from_lorawan : DeduplicatedUplinkMessage → AppUplink → Device → FromLorawan
  unfolding on_metadata
  convert_from_lorawan message up dev = on_metadata message.payload up dev message.lorawan
