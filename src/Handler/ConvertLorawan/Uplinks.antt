-- ===== src/Handler/ConvertLorawan/Uplinks.antt =====
-- What an uplink must be to be converted, and what becomes of the downlink that waits.
use ttn.Base.{
  ℕ, ◌≡◌, refl, Bool, true, false, ◌&&◌, List, [], ◌∷◌, Option, none, some, Result, ok, err, arith,
  ◌==◌, if◌then◌else◌, if_case, not, length, sym, ap, ◌∙◌,
}
use ttn.Lorawan.{MacPayload, Payload, Body, PhyPayload, Codec}
use ttn.Messages.{Metadata, DeduplicatedUplinkMessage}
use ttn.Broker.Uplink.{with_f_cnt}
use ttn.Handler.Types.{AppDownlink, AppUplink, Device, Verdict}
use ttn.Handler.ConvertLorawan.{
  FromLorawan, clear_pending, frm_payload_of, received, with_data, decrypted, on_port, accepted,
  on_mic, on_body, on_frame, on_metadata, convert_from_lorawan,
}

-- The downlink that waits, after a message: a retry leaves it; else an unconfirmed one goes, and a
-- confirmed one goes if the message acknowledges it.
abbrev pub remaining : Bool → Bool → Option AppDownlink → Option AppDownlink
remaining retry ack none = none
remaining retry ack (some pending) =
    if retry
    then some pending
    else if pending.confirmed && ack
    then none
    else if pending.confirmed
    then some pending
    else none

-- What the end of a conversion leaves: the counter and whether the message is a retry, and the
-- counter and the downlink of the device.
pub record IsReceived (ack retry : Bool) (f_cnt saved : ℕ) (pending : Option AppDownlink)
    (result : FromLorawan) : Type 0 where
  pub keeps_counter : result.up.f_cnt ≡ f_cnt
  pub keeps_retry : result.up.is_retry ≡ retry
  pub is_saved : result.dev.f_cnt_up ≡ saved
  pub is_cleared : result.dev.current_downlink ≡ remaining retry ack pending

abbrev Leaves : MacPayload → AppUplink → Device → FromLorawan → Type 0
Leaves payload up dev =
    IsReceived payload.ack up.is_retry up.f_cnt dev.f_cnt_up dev.current_downlink

clear_pending_lem :
    (up : AppUplink) (ack : Bool) (dev : Device) (pending : Option AppDownlink)
    → dev.current_downlink ≡ pending
    → ((clear_pending up ack dev pending).0.current_downlink ≡ remaining up.is_retry ack pending)
      × ((clear_pending up ack dev pending).0.f_cnt_up ≡ dev.f_cnt_up)
unfolding clear_pending
clear_pending_lem up ack dev none h = (h, refl)
clear_pending_lem up ack dev (some pending) h = ground arith

received-IsReceived :
    (payload : MacPayload) (up : AppUplink) (dev : Device)
    → Leaves payload up dev (received payload up dev)
unfolding received
received-IsReceived payload up dev =
    let (cleared, saved) = clear_pending_lem up payload.ack dev dev.current_downlink refl in
    record { keeps_counter = refl; keeps_retry = refl; is_saved = saved; is_cleared = cleared }

with_data-IsReceived :
    (payload : MacPayload) (up : AppUplink) (dev : Device) (frames : List Payload)
    → (with_data payload up dev frames).verdict ≡ Verdict.goes_on
    → Leaves payload up dev (with_data payload up dev frames)
unfolding with_data
with_data-IsReceived payload up dev [] h = cc
with_data-IsReceived payload up dev (Payload.bytes bytes ∷ _) h =
    received-IsReceived payload (record up { payload_raw = bytes }) dev
with_data-IsReceived payload up dev (Payload.commands ∷ _) h = cc

decrypted-IsReceived :
    (payload : MacPayload) (up : AppUplink) (dev : Device) (r : Result PhyPayload)
    → (decrypted payload up dev r).verdict ≡ Verdict.goes_on
    → Leaves payload up dev (decrypted payload up dev r)
unfolding decrypted
decrypted-IsReceived payload up dev (err e) h = cc
decrypted-IsReceived payload up dev (ok phy) h =
    with_data-IsReceived payload up dev (frm_payload_of payload phy.body) h

-- What holds of an uplink that is converted without error: it is authentic under the network session
-- key and the counter of its metadata, which the message and the device then have.
pub record Converted (codec : Codec) (message : DeduplicatedUplinkMessage) (up : AppUplink)
    (dev : Device) (result : FromLorawan) : Type 0 where
  pub metadata : Metadata
  pub phy : PhyPayload
  pub payload : MacPayload
  pub has_metadata : message.lorawan ≡ some metadata
  pub is_read : codec.unmarshal message.payload ≡ ok phy
  pub is_mac : phy.body ≡ Body.mac payload
  pub is_authentic :
      codec.validate_mic (with_f_cnt phy payload metadata.f_cnt) dev.nwk_s_key ≡ ok true
  pub is_counted : result.up.f_cnt ≡ metadata.f_cnt
  pub is_saved : result.dev.f_cnt_up ≡ metadata.f_cnt
  pub is_retry : result.up.is_retry ≡ (if dev.f_cnt_up == metadata.f_cnt then true else up.is_retry)
  pub is_cleared :
      result.dev.current_downlink ≡ remaining result.up.is_retry payload.ack dev.current_downlink

module _ (codec : Codec) where
  on_port-IsReceived :
      (phy : PhyPayload) (payload : MacPayload) (up : AppUplink) (dev : Device) (port : Option ℕ)
      → (on_port codec phy payload up dev port).verdict ≡ Verdict.goes_on
      → Leaves payload up dev (on_port codec phy payload up dev port)
  unfolding on_port
  on_port-IsReceived phy payload up dev none h = received-IsReceived payload up dev
  on_port-IsReceived phy payload up dev (some port) h =
      let on = record up { f_port = port } in
      if_case (λ r. r.verdict ≡ Verdict.goes_on → Leaves payload up dev r)
        (not (port == 0) && (length payload.frm_payload == 1))
        (decrypted-IsReceived payload on dev (codec.decrypt_frm_payload phy dev.app_s_key))
        (λ e. received-IsReceived payload on dev) h

  on_mic-Accepted :
      (phy : PhyPayload) (payload : MacPayload) (f_cnt : ℕ) (up : AppUplink) (dev : Device)
      (r : Result Bool)
      → (on_mic codec phy payload f_cnt up dev r).verdict ≡ Verdict.goes_on
      → (r ≡ ok true)
        × IsReceived payload.ack
            (if dev.f_cnt_up == f_cnt then true else up.is_retry)
            f_cnt
            f_cnt
            dev.current_downlink
            (on_mic codec phy payload f_cnt up dev r)
  unfolding on_mic accepted
  on_mic-Accepted phy payload f_cnt up dev (err e) h = cc
  on_mic-Accepted phy payload f_cnt up dev (ok false) h = cc
  on_mic-Accepted phy payload f_cnt up dev (ok true) h =
      (refl, on_port-IsReceived phy payload _ _ payload.f_port h)

  on_body-Converted :
      (message : DeduplicatedUplinkMessage) (up : AppUplink) (dev : Device) (metadata : Metadata)
      (phy : PhyPayload) (body : Body)
      → message.lorawan ≡ some metadata
      → codec.unmarshal message.payload ≡ ok phy
      → phy.body ≡ body
      → (on_body codec phy metadata.f_cnt up dev body).verdict ≡ Verdict.goes_on
      → Converted codec message up dev (on_body codec phy metadata.f_cnt up dev body)
  unfolding on_body
  on_body-Converted message up dev metadata phy (Body.mac payload) m u b h =
      let counted = with_f_cnt phy payload metadata.f_cnt in
      let (valid, r) =
        on_mic-Accepted counted payload metadata.f_cnt up dev
          (codec.validate_mic counted dev.nwk_s_key) h in
      record {
        metadata = metadata;
        phy = phy;
        payload = payload;
        has_metadata = m;
        is_read = u;
        is_mac = b;
        is_authentic = valid;
        is_counted = r.keeps_counter;
        is_saved = r.is_saved;
        is_retry = r.keeps_retry;
        is_cleared =
            r.is_cleared
            ∙ ap (λ retry. remaining retry payload.ack dev.current_downlink) (sym r.keeps_retry);
      }
  on_body-Converted message up dev metadata phy (Body.join_request x) m u b h = cc
  on_body-Converted message up dev metadata phy (Body.join_accept x) m u b h = cc
  on_body-Converted message up dev metadata phy (Body.encrypted x) m u b h = cc

  on_frame-Converted :
      (message : DeduplicatedUplinkMessage) (up : AppUplink) (dev : Device) (metadata : Metadata)
      (r : Result PhyPayload)
      → message.lorawan ≡ some metadata
      → codec.unmarshal message.payload ≡ r
      → (on_frame codec metadata.f_cnt up dev r).verdict ≡ Verdict.goes_on
      → Converted codec message up dev (on_frame codec metadata.f_cnt up dev r)
  unfolding on_frame
  on_frame-Converted message up dev metadata (err e) m u h = cc
  on_frame-Converted message up dev metadata (ok phy) m u h =
      on_body-Converted message up dev metadata phy phy.body m u refl h

  on_metadata-Converted :
      (message : DeduplicatedUplinkMessage) (up : AppUplink) (dev : Device)
      (metadata : Option Metadata)
      → message.lorawan ≡ metadata
      → (on_metadata codec message.payload up dev metadata).verdict ≡ Verdict.goes_on
      → Converted codec message up dev (on_metadata codec message.payload up dev metadata)
  unfolding on_metadata
  on_metadata-Converted message up dev none m h = cc
  on_metadata-Converted message up dev (some metadata) m h =
      on_frame-Converted message up dev metadata (codec.unmarshal message.payload) m refl h

  -- An uplink is converted without error only if it has LoRaWAN metadata and its frame is a data frame
  -- whose MIC is right under the network session key of the device and the frame counter of the
  -- metadata. The message and the device then have that counter; the message is a retry if the
  -- device had it before. A downlink that waits stays if the message is a retry, or if it is confirmed
  -- and the message does not acknowledge it, and else is forgotten.
  pub convert_from_lorawan-Converted :
      (message : DeduplicatedUplinkMessage) (up : AppUplink) (dev : Device)
      → (convert_from_lorawan codec message up dev).verdict ≡ Verdict.goes_on
      → Converted codec message up dev (convert_from_lorawan codec message up dev)
  unfolding convert_from_lorawan
  convert_from_lorawan-Converted message up dev h =
      on_metadata-Converted message up dev message.lorawan refl h
