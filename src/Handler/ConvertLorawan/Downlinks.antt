-- ===== src/Handler/ConvertLorawan/Downlinks.antt =====
-- ConvertToLoRaWAN of core/handler/convert_lorawan.go: the message of an application in the frame that
-- the network has prepared.
use ttn.Base.{
  ℕ, Bool, true, not, ◌&&◌, List, [], ◌∷◌, Option, none, some, Result, ok, err, Error, ltb, ◌==◌,
  length, if◌then◌else◌,
}
use ttn.Lorawan.{MType, MacPayload, Payload, Body, PhyPayload, Codec}
use ttn.Messages.{DownlinkOption, DownlinkMessage}
use ttn.Handler.Types.{AppDownlink, Device, Verdict}

-- The bytes of a payload; nil has none.
abbrev pub bytes_of : AppDownlink → List ℕ
bytes_of down = elim down.payload_raw [ none ↦ [] | some bytes ↦ bytes ]

-- The frame counter that the option gives, if it has a LoRaWAN configuration.
unfoldable pub option_counter : ℕ → Option DownlinkOption → ℕ
option_counter f_cnt none = f_cnt
option_counter f_cnt (some option) = elim option.lorawan_f_cnt [ none ↦ f_cnt | some n ↦ n ]

unfoldable pub is_not_needed : AppDownlink → MacPayload → Bool
is_not_needed down payload =
    (length (bytes_of down) == 0) && not payload.ack && (length payload.f_opts == 0)

-- The port of a frame with a payload: 1, where none is set or it is 0.
unfoldable pub data_port : Option ℕ → Option ℕ
data_port none = some 1
data_port (some port) = if port == 0 then some 1 else some port

-- The frame before encryption. `waits` says that the queue could be read and is not empty.
unfoldable pub filled : AppDownlink → Bool → PhyPayload → MacPayload → PhyPayload
unfolding data_port
filled down waits phy payload =
    let port = if not (down.f_port == 0) then some down.f_port else payload.f_port in
    let has_data = ltb 0 (length (bytes_of down)) in
    record phy {
      m_type = if down.confirmed then MType.confirmed_data_down else phy.m_type;
      body = Body.mac (record payload {
        f_pending = if waits then true else payload.f_pending;
        f_port = if has_data then data_port port else port;
        frm_payload = if has_data then Payload.bytes (bytes_of down) ∷ [] else [];
      });
    }

abbrev fail : DownlinkMessage → Error → Verdict × DownlinkMessage
fail message e = (Verdict.fails e, message)

module _ (codec : Codec) (dev : Device) (waits : Bool) (down : AppDownlink)
    (message : DownlinkMessage) where
  unfoldable pub on_marshal : Result (List ℕ) → Verdict × DownlinkMessage
  on_marshal (err e) = fail message e
  on_marshal (ok bytes) = (Verdict.goes_on, record message { payload = bytes })

  unfoldable pub on_mic : Result PhyPayload → Verdict × DownlinkMessage
  unfolding on_marshal
  on_mic (err e) = fail message e
  on_mic (ok phy) = on_marshal (codec.marshal phy)

  unfoldable pub on_encrypted : Result PhyPayload → Verdict × DownlinkMessage
  unfolding on_mic
  on_encrypted (err e) = fail message e
  on_encrypted (ok phy) = on_mic (codec.set_mic phy dev.nwk_s_key)

  unfoldable pub on_payload : PhyPayload → MacPayload → Verdict × DownlinkMessage
  unfolding is_not_needed filled on_encrypted
  on_payload phy payload =
      if is_not_needed down payload
      then (Verdict.not_needed, message)
      else on_encrypted (codec.encrypt_frm_payload (filled down waits phy payload) dev.app_s_key)

  unfoldable pub on_body : PhyPayload → Body → Verdict × DownlinkMessage
  unfolding option_counter on_payload
  on_body phy (Body.mac payload) =
      on_payload phy
        (record payload { f_cnt = option_counter payload.f_cnt message.downlink_option })
  on_body phy _ = fail message (Error.invalid_argument "Downlink" "does not contain a MAC payload")

  unfoldable pub on_frame : Result PhyPayload → Verdict × DownlinkMessage
  unfolding on_body
  on_frame (err e) = fail message e
  on_frame (ok phy) = on_body phy phy.body

  -- ConvertToLoRaWAN.
  unfoldable pub convert_to_lorawan : Verdict × DownlinkMessage
  unfolding on_frame
  convert_to_lorawan = on_frame (codec.unmarshal message.payload)
