-- ===== src/NetworkServer/Devices.antt =====
-- core/networkserver/get_devices.go: the candidates for an uplink.
use ttn.Base.{
  ℕ, ◌%◌, ◌^◌, ◌≤◌, ◌≡◌, refl, ap, ◌⊎◌, inl, inr, Bool, true, List, [], ◌∷◌, Option, none, some,
  Result, ok, err, arith, leb, ◌&&◌, if◌then◌else◌, IsIn, sym, ◌∙◌, Bool-cases, ok_inj, ◌<◌, ◌+◌,
}
use ttn.Base.Options.{some_inj}
use ttn.Fcnt.{get_full, get_full-low_bits}
use ttn.NetworkServer.Device.{Device}
use ttn.Messages

-- The device as the broker gets it.
pub to_lorawan : Device → ttn.Messages.Device
to_lorawan device = record {
  app_eui = device.app_eui;
  dev_eui = device.dev_eui;
  app_id = device.app_id;
  dev_id = device.dev_id;
  nwk_s_key = device.nwk_s_key;
  f_cnt_up = device.f_cnt_up;
  uses_32_bit_f_cnt = device.options.uses_32_bit_f_cnt;
  disable_f_cnt_check = device.options.disable_f_cnt_check;
}

-- The tests of the loop, for a counter of uint32 of which the lower 16 bits count.
unfoldable pub is_candidate : ℕ → Device → Bool
is_candidate f_cnt device =
    if device.options.disable_f_cnt_check
    then true
    else if leb device.f_cnt_up f_cnt
    then true
    else device.options.uses_32_bit_f_cnt
      && leb device.f_cnt_up (get_full device.f_cnt_up (f_cnt % 2 ^ 16))

-- The loop; `none` is a device that the store could not read.
unfoldable pub select : ℕ → List (Option Device) → List ttn.Messages.Device
select f_cnt [] = []
select f_cnt (none ∷ devices) = select f_cnt devices
select f_cnt (some device ∷ devices) =
    let rest = select f_cnt devices in
    if is_candidate f_cnt device then to_lorawan device ∷ rest else rest

-- HandleGetDevices, with the store's ListForAddress.
unfoldable pub handle_get_devices :
    (ℕ → Result (List (Option Device))) → ℕ → ℕ → Result (List ttn.Messages.Device)
handle_get_devices list_for_address dev_addr f_cnt = elim (list_for_address dev_addr) [
  | err e ↦ err e
  | ok devices ↦ ok (select f_cnt devices)
]

-- The check is off, or the counter that was sent does not lie below the device's own, or the device
-- counts with 32 bits and the full counter does not.
abbrev pub IsCandidate : ℕ → Device → Type 0
IsCandidate f_cnt device =
    (device.options.disable_f_cnt_check ≡ true)
    ⊎ ((device.f_cnt_up ≤ f_cnt)
        ⊎ ((device.options.uses_32_bit_f_cnt ≡ true)
            × (device.f_cnt_up ≤ get_full device.f_cnt_up (f_cnt % 2 ^ 16))))

is_candidate_iff :
    (f_cnt : ℕ) (device : Device)
    → (is_candidate f_cnt device ≡ true → IsCandidate f_cnt device)
      × (IsCandidate f_cnt device → is_candidate f_cnt device ≡ true)
unfolding is_candidate
is_candidate_iff f_cnt device = (λ e. ground arith, λ h. ground arith)

select_complete :
    (f_cnt : ℕ) (devices : List (Option Device)) (device : Device)
    → IsIn (some device) devices
    → is_candidate f_cnt device ≡ true
    → IsIn (to_lorawan device) (select f_cnt devices)
unfolding select
select_complete f_cnt [] device i h = absurd i
select_complete f_cnt (none ∷ devices) device (inl e) h = cc
select_complete f_cnt (none ∷ devices) device (inr i) h = select_complete f_cnt devices device i h
select_complete f_cnt (some d ∷ devices) device (inl e) h =
    rw (ap (is_candidate f_cnt) (sym (some_inj e)) ∙ h) (inl (ap to_lorawan (some_inj e)))
select_complete f_cnt (some d ∷ devices) device (inr i) h =
    elim (Bool-cases (is_candidate f_cnt d)) [
      | inl k ↦ rw k (inr (select_complete f_cnt devices device i h))
      | inr k ↦ rw k (select_complete f_cnt devices device i h)
    ]

-- Where a returned device comes from.
abbrev pub Comes : ℕ → List (Option Device) → ttn.Messages.Device → Type 0
Comes f_cnt devices found =
    (device : Device) × IsIn (some device) devices
    × (is_candidate f_cnt device ≡ true)
    × (found ≡ to_lorawan device)

later :
    (f_cnt : ℕ) (o : Option Device) (devices : List (Option Device)) (found : ttn.Messages.Device)
    → Comes f_cnt devices found
    → Comes f_cnt (o ∷ devices) found
later f_cnt o devices found (device, i, h, e) = (device, inr i, h, e)

first_or_later :
    (f_cnt : ℕ) (d : Device) (devices : List (Option Device)) (found : ttn.Messages.Device)
    → (IsIn found (select f_cnt devices) → Comes f_cnt devices found)
    → is_candidate f_cnt d ≡ true
    → IsIn found (to_lorawan d ∷ select f_cnt devices)
    → Comes f_cnt (some d ∷ devices) found
first_or_later f_cnt d devices found rest k (inl e) = (d, inl refl, k, e)
first_or_later f_cnt d devices found rest k (inr i) = later f_cnt (some d) devices found (rest i)

select_sound :
    (f_cnt : ℕ) (devices : List (Option Device)) (found : ttn.Messages.Device)
    → IsIn found (select f_cnt devices)
    → Comes f_cnt devices found
unfolding select
select_sound f_cnt [] found i = absurd i
select_sound f_cnt (none ∷ devices) found i =
    later f_cnt none devices found (select_sound f_cnt devices found i)
select_sound f_cnt (some d ∷ devices) found i = elim (Bool-cases (is_candidate f_cnt d)) [
  | inl k ↦ first_or_later f_cnt d devices found (select_sound f_cnt devices found) k (rw k at i)
  | inr k ↦ later f_cnt (some d) devices found (select_sound f_cnt devices found (rw k at i))
]

-- The network server returns a device if and only if it is a candidate among those that the store
-- lists under the address, and in the form that the broker reads.
pub handle_get_devices_iff :
    (list_for_address : ℕ → Result (List (Option Device))) (dev_addr f_cnt : ℕ)
    (devices : List (Option Device)) (found : List ttn.Messages.Device)
    → list_for_address dev_addr ≡ ok devices
    → handle_get_devices list_for_address dev_addr f_cnt ≡ ok found
    → ((device : Device)
        → IsIn (some device) devices
        → IsCandidate f_cnt device
        → IsIn (to_lorawan device) found)
      × ((d : ttn.Messages.Device)
          → IsIn d found
          → (device : Device) × IsIn (some device) devices
            × IsCandidate f_cnt device
            × (d ≡ to_lorawan device))
unfolding handle_get_devices
handle_get_devices_iff list_for_address dev_addr f_cnt devices found e r =
    let same : select f_cnt devices ≡ found = ok_inj (rw (e, handle_get_devices) at r) in
    (
      λ device i c.
          rw (← same)
            (select_complete f_cnt devices device i ((is_candidate_iff f_cnt device).1 c)),
      λ d i.
          let (device, j, h, k) = select_sound f_cnt devices d (rw (← same) at i) in
          (device, j, (is_candidate_iff f_cnt device).0 h, k),
    )

-- The 16 bits of any counter that is at most 65535 frames ahead make a device with 32-bit counters a
-- candidate.
pub next_frame-IsCandidate :
    (device : Device) (n : ℕ)
    → device.options.uses_32_bit_f_cnt ≡ true
    → device.f_cnt_up ≤ n
    → n < device.f_cnt_up + 2 ^ 16
    → n < 2 ^ 32
    → is_candidate (n % 2 ^ 16) device ≡ true
next_frame-IsCandidate device n e p q r =
    let same = get_full-low_bits device.f_cnt_up n p q r in
    let low : n % 2 ^ 16 % 2 ^ 16 ≡ n % 2 ^ 16 = ground arith in
    (is_candidate_iff (n % 2 ^ 16) device).1 (inr (inr (e, rw low (rw same p))))
