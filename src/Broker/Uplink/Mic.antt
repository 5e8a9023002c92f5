-- ===== src/Broker/Uplink/Mic.antt =====
-- The search for the device whose key validates the message.
use ttn.Base.{
  ℕ, ◌%◌, ◌^◌, ◌<◌, ◌≡◌, ◌≢◌, ◌⊎◌, inl, inr, ap, true, false, List, [], ◌∷◌, none, some, ok, arith,
  All, IsIn,
}
use ttn.Fcnt.{get_full, get_full-bounds}
use ttn.Lorawan.{MacPayload, PhyPayload, Codec}
use ttn.Messages.{Device}
use ttn.Broker.Uplink.{find_device, with_f_cnt}

module _ (codec : Codec) (phy : PhyPayload) (payload : MacPayload) where
  -- The message under this frame counter carries the MIC of the device's key.
  abbrev pub IsAuthentic : Device → ℕ → Type 0
  IsAuthentic device f_cnt =
      codec.validate_mic (with_f_cnt phy payload f_cnt) device.nwk_s_key ≡ ok true

  abbrev pub IsRejected : Device → ℕ → Type 0
  IsRejected device f_cnt =
      codec.validate_mic (with_f_cnt phy payload f_cnt) device.nwk_s_key ≡ ok false

  -- A device that is found is a candidate, and the message is authentic under the counter found.
  pub find_device_sound :
      (original current : ℕ) (candidates : List Device) (device : Device) (f_cnt : ℕ)
      → find_device codec phy payload original current candidates
        ≡ ok (record { device = some device; f_cnt = f_cnt })
      → IsIn device candidates × IsAuthentic device f_cnt
  unfolding find_device
  find_device_sound original current [] device f_cnt e = ground arith
  find_device_sound original current (c ∷ cs) device f_cnt e = ground (
    arith,
    find_device_sound original (get_full c.f_cnt_up (original % 2 ^ 16)) cs device f_cnt,
    find_device_sound original current cs device f_cnt,
  )

  -- Where no candidate uses 32-bit counters, one that is authentic under the counter of the message
  -- is enough for a device to be found, under that counter.
  pub find_device_complete :
      (original : ℕ) (candidates : List Device) (device : Device)
      → All
          (λ c. (c.uses_32_bit_f_cnt ≡ false) × (IsAuthentic c original ⊎ IsRejected c original))
          candidates
      → IsIn device candidates
      → IsAuthentic device original
      → (found : Device) × (find_device codec phy payload original original candidates
          ≡ ok (record { device = some found; f_cnt = original }))
  unfolding find_device
  find_device_complete original [] device all member valid = absurd member
  find_device_complete original (c ∷ cs) device ((short, inl hit), rest) member valid =
      (c, ground arith)
  find_device_complete original (c ∷ cs) device ((short, inr miss), rest) (inl e) valid =
      absurd (unfold find_device in ground (arith, ap (λ d. d.nwk_s_key) e))
  find_device_complete original (c ∷ cs) device ((short, inr miss), rest) (inr member) valid =
      let (found, e) = find_device_complete original cs device rest member valid in
      (found, ground arith)

  -- The counter that is found has the low 16 bits of the message's.
  pub find_device-low_bits :
      (original current : ℕ) (candidates : List Device) (device : Device) (f_cnt : ℕ)
      → All (λ c. c.f_cnt_up < 2 ^ 32) candidates
      → current % 2 ^ 16 ≡ original % 2 ^ 16
      → find_device codec phy payload original current candidates
        ≡ ok (record { device = some device; f_cnt = f_cnt })
      → f_cnt % 2 ^ 16 ≡ original % 2 ^ 16
  unfolding find_device
  find_device-low_bits original current [] device f_cnt all h e = ground arith
  find_device-low_bits original current (c ∷ cs) device f_cnt (small, all) h e =
      let full = get_full c.f_cnt_up (original % 2 ^ 16) in
      ground (
        arith,
        get_full-bounds c.f_cnt_up (original % 2 ^ 16),
        find_device-low_bits original full cs device f_cnt all,
        find_device-low_bits original current cs device f_cnt all,
      )

  -- The counter that a 32-bit candidate leaves in the payload is not set back: a message that is
  -- authentic for the next candidate under its own counter is then not found.
  pub find_device_stale :
      (original : ℕ) (wide device : Device)
      → wide.uses_32_bit_f_cnt ≡ true
      → get_full wide.f_cnt_up (original % 2 ^ 16) ≢ original
      → IsRejected wide original
      → IsRejected wide (get_full wide.f_cnt_up (original % 2 ^ 16))
      → device.uses_32_bit_f_cnt ≡ false
      → IsAuthentic device original
      → IsRejected device (get_full wide.f_cnt_up (original % 2 ^ 16))
      → find_device codec phy payload original original (wide ∷ device ∷ [])
        ≡ ok (record { device = none; f_cnt = get_full wide.f_cnt_up (original % 2 ^ 16) })
  unfolding find_device
  find_device_stale original wide device w differs r1 r2 d valid r3 = ground arith
