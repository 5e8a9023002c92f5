-- ===== src/Handler/ConvertLorawan/Frames.antt =====
-- What is sent to a device.
use ttn.Base.{
  ℕ, zero, suc, ◌<◌, ◌≡◌, ◌⊎◌, refl, ap, Bool, true, false, not, List, [], ◌∷◌, Option, none, some,
  Result, ok, err, ◌==◌, length, if◌then◌else◌, arith,
}
use ttn.Lorawan.{MType, MacPayload, Payload, Body, PhyPayload, Codec}
use ttn.Messages.{DownlinkMessage}
use ttn.Handler.Types.{AppDownlink, Device, Verdict}
use ttn.Handler.ConvertLorawan.Downlinks.{
  bytes_of, option_counter, is_not_needed, data_port, filled, on_marshal, on_mic, on_encrypted,
  on_payload, on_body, on_frame, convert_to_lorawan,
}

-- The frame that is encrypted for a device: with the counter of the option, the port of the message
-- if it has one, and no data or the data of the message on a port other than 0, which is that of MAC
-- commands.
pub record IsPlain (down : AppDownlink) (waits : Bool) (f_cnt : ℕ) (given plain : MacPayload)
    : Type 0 where
  pub is_counted : plain.f_cnt ≡ f_cnt
  pub is_for : plain.dev_addr ≡ given.dev_addr
  pub keeps_ack : plain.ack ≡ given.ack
  pub keeps_commands : plain.f_opts ≡ given.f_opts
  pub tells_pending : waits ≡ true → plain.f_pending ≡ true
  pub is_on_port : 0 < down.f_port → plain.f_port ≡ some down.f_port
  pub has_port : 0 < length (bytes_of down) → (p : ℕ) × (plain.f_port ≡ some p) × (0 < p)
  pub has_data : 0 < length (bytes_of down) → plain.frm_payload ≡ Payload.bytes (bytes_of down) ∷ []
  pub has_none : length (bytes_of down) ≡ 0 → plain.frm_payload ≡ []
  pub is_useful : (0 < length (bytes_of down)) ⊎ ((plain.ack ≡ true) ⊎ (0 < length plain.f_opts))

-- What holds of a message that is sent to a device.
pub record Framed (codec : Codec) (dev : Device) (waits : Bool) (down : AppDownlink)
    (message sent : DownlinkMessage) : Type 0 where
  pub phy : PhyPayload
  pub plain : PhyPayload
  pub encrypted : PhyPayload
  pub signed : PhyPayload
  pub payload : MacPayload
  pub plain_payload : MacPayload
  pub is_read : codec.unmarshal message.payload ≡ ok phy
  pub is_mac : phy.body ≡ Body.mac payload
  pub is_plain_mac : plain.body ≡ Body.mac plain_payload
  pub is_plain :
      IsPlain down waits
        (option_counter payload.f_cnt message.downlink_option)
        payload
        plain_payload
  pub is_confirmed : down.confirmed ≡ true → plain.m_type ≡ MType.confirmed_data_down
  pub is_encrypted : codec.encrypt_frm_payload plain dev.app_s_key ≡ ok encrypted
  pub is_signed : codec.set_mic encrypted dev.nwk_s_key ≡ ok signed
  pub is_marshaled : codec.marshal signed ≡ ok sent.payload

data_port_of_pos : (p : ℕ) → 0 < p → data_port (some p) ≡ some p
unfolding data_port
data_port_of_pos p h = ground arith

data_port_lem : (port : Option ℕ) → (p : ℕ) × (data_port port ≡ some p) × (0 < p)
unfolding data_port
data_port_lem none = (1, refl, omega arith)
data_port_lem (some zero) = (1, refl, omega arith)
data_port_lem (some (suc n)) = (suc n, data_port_of_pos (suc n) (omega arith), omega arith)

abbrev mac_of : MacPayload → Body → MacPayload
mac_of default (Body.mac payload) = payload
mac_of default _ = default

filled-IsPlain :
    (down : AppDownlink) (waits : Bool) (phy : PhyPayload) (payload : MacPayload)
    → is_not_needed down payload ≡ false
    → IsPlain down waits payload.f_cnt payload (mac_of payload (filled down waits phy payload).body)
unfolding filled is_not_needed
filled-IsPlain down waits phy payload h = record {
  is_counted = refl;
  is_for = refl;
  keeps_ack = refl;
  keeps_commands = refl;
  tells_pending = λ w. ground arith;
  is_on_port = λ p. ground (arith, data_port_of_pos down.f_port p);
  has_port = λ n.
      ground (
        arith,
        data_port_lem (if not (down.f_port == 0) then some down.f_port else payload.f_port),
      );
  has_data = λ n. ground arith;
  has_none = λ n. ground arith;
  is_useful = ground arith;
}

filled_body :
    (down : AppDownlink) (waits : Bool) (phy : PhyPayload) (payload : MacPayload)
    → (filled down waits phy payload).body
      ≡ Body.mac (mac_of payload (filled down waits phy payload).body)
unfolding filled
filled_body down waits phy payload = refl

filled_m_type :
    (down : AppDownlink) (waits : Bool) (phy : PhyPayload) (payload : MacPayload)
    → down.confirmed ≡ true
    → (filled down waits phy payload).m_type ≡ MType.confirmed_data_down
unfolding filled
filled_m_type down waits phy payload h = rw h refl

needed :
    (b : Bool) (message sent : DownlinkMessage) (rest : Verdict × DownlinkMessage)
    → (if b then (Verdict.not_needed, message) else rest) ≡ (Verdict.goes_on, sent)
    → (b ≡ false) × (rest ≡ (Verdict.goes_on, sent))
needed true message sent rest h = cc
needed false message sent rest h = (refl, h)

module _ (codec : Codec) (dev : Device) (waits : Bool) (down : AppDownlink)
    (message sent : DownlinkMessage) where
  on_marshal-eq_goes_on :
      (r : Result (List ℕ))
      → on_marshal codec dev waits down message r ≡ (Verdict.goes_on, sent)
      → r ≡ ok sent.payload
  unfolding on_marshal
  on_marshal-eq_goes_on (err e) h = cc
  on_marshal-eq_goes_on (ok bytes) h = ap (λ p. ok p.1.payload) h

  on_mic-eq_goes_on :
      (r : Result PhyPayload)
      → on_mic codec dev waits down message r ≡ (Verdict.goes_on, sent)
      → (signed : PhyPayload) × (r ≡ ok signed) × (codec.marshal signed ≡ ok sent.payload)
  unfolding on_mic
  on_mic-eq_goes_on (err e) h = cc
  on_mic-eq_goes_on (ok phy) h = (phy, refl, on_marshal-eq_goes_on (codec.marshal phy) h)

  on_encrypted-eq_goes_on :
      (r : Result PhyPayload)
      → on_encrypted codec dev waits down message r ≡ (Verdict.goes_on, sent)
      → (encrypted signed : PhyPayload) × (r ≡ ok encrypted)
        × (codec.set_mic encrypted dev.nwk_s_key ≡ ok signed)
        × (codec.marshal signed ≡ ok sent.payload)
  unfolding on_encrypted
  on_encrypted-eq_goes_on (err e) h = cc
  on_encrypted-eq_goes_on (ok phy) h =
      let (signed, s, m) = on_mic-eq_goes_on (codec.set_mic phy dev.nwk_s_key) h in
      (phy, signed, refl, s, m)

  on_payload-Framed :
      (phy : PhyPayload) (payload : MacPayload)
      → codec.unmarshal message.payload ≡ ok phy
      → phy.body ≡ Body.mac payload
      → on_body codec dev waits down message phy (Body.mac payload) ≡ (Verdict.goes_on, sent)
      → Framed codec dev waits down message sent
  unfolding on_body on_payload
  on_payload-Framed phy payload u b h =
      let counted = record payload {
        f_cnt = option_counter payload.f_cnt message.downlink_option;
      } in
      let plain = filled down waits phy counted in
      let (n, rest) =
        needed (is_not_needed down counted) message sent
          (on_encrypted codec dev waits down message
            (codec.encrypt_frm_payload plain dev.app_s_key))
          h in
      let (encrypted, signed, e, s, m) =
        on_encrypted-eq_goes_on (codec.encrypt_frm_payload plain dev.app_s_key) rest in
      let p = filled-IsPlain down waits phy counted n in
      record {
        phy = phy;
        plain = plain;
        encrypted = encrypted;
        signed = signed;
        payload = payload;
        plain_payload = mac_of counted plain.body;
        is_read = u;
        is_mac = b;
        is_plain_mac = filled_body down waits phy counted;
        is_plain = record {
          is_counted = p.is_counted;
          is_for = p.is_for;
          keeps_ack = p.keeps_ack;
          keeps_commands = p.keeps_commands;
          tells_pending = p.tells_pending;
          is_on_port = p.is_on_port;
          has_port = p.has_port;
          has_data = p.has_data;
          has_none = p.has_none;
          is_useful = p.is_useful;
        };
        is_confirmed = filled_m_type down waits phy counted;
        is_encrypted = e;
        is_signed = s;
        is_marshaled = m;
      }

  on_body-Framed :
      (phy : PhyPayload) (body : Body)
      → codec.unmarshal message.payload ≡ ok phy
      → phy.body ≡ body
      → on_body codec dev waits down message phy body ≡ (Verdict.goes_on, sent)
      → Framed codec dev waits down message sent
  unfolding on_body
  on_body-Framed phy (Body.mac payload) u b h = on_payload-Framed phy payload u b h
  on_body-Framed phy (Body.join_request x) u b h = cc
  on_body-Framed phy (Body.join_accept x) u b h = cc
  on_body-Framed phy (Body.encrypted x) u b h = cc

  on_frame-Framed :
      (r : Result PhyPayload)
      → codec.unmarshal message.payload ≡ r
      → on_frame codec dev waits down message r ≡ (Verdict.goes_on, sent)
      → Framed codec dev waits down message sent
  unfolding on_frame
  on_frame-Framed (err e) u h = cc
  on_frame-Framed (ok phy) u h = on_body-Framed phy phy.body u refl h

  -- A message that is converted without error is a data frame with the frame counter of the option that
  -- is used, a type that is confirmed if the message is, and the pending bit if messages wait. It
  -- carries the data of the message on its port, which is not 0, and is encrypted under the application
  -- session key and signed under the network session key. Without data it acknowledges or carries
  -- MAC commands.
  pub convert_to_lorawan-Framed :
      convert_to_lorawan codec dev waits down message ≡ (Verdict.goes_on, sent)
      → Framed codec dev waits down message sent
  unfolding convert_to_lorawan
  convert_to_lorawan-Framed h = on_frame-Framed (codec.unmarshal message.payload) refl h
