-- ===== src/Broker/Uplink/FrameCounter.antt =====
-- Which frame counters the broker accepts.
use ttn.Base.{ℕ, ◌+◌, ◌^◌, ◌≤◌, ◌<◌, ◌≡◌, ◌⊎◌, ◌↔◌, refl, true, ok, err, Error, arith}
use ttn.Lorawan.{MType}
use ttn.Messages.{Device}
use ttn.Broker.Uplink.{check_f_cnt, confirmed, max_f_cnt_gap}

-- The counter is newer than the last one by at most the gap, or it need not be.
abbrev pub IsFresh : Device → MType → ℕ → Type 0
IsFresh device m_type f_cnt =
    ((device.f_cnt_up < f_cnt) × (f_cnt ≤ device.f_cnt_up + max_f_cnt_gap))
    ⊎ (device.disable_f_cnt_check ≡ true)
    ⊎ (device.f_cnt_up ≡ 0)
    ⊎ ((f_cnt ≡ device.f_cnt_up) × (m_type ≡ MType.confirmed_data_up))

confirmed-eq_true : (m : MType) → confirmed m ≡ true → m ≡ MType.confirmed_data_up
confirmed-eq_true MType.confirmed_data_up e = refl
confirmed-eq_true m e = cc

-- A frame counter is accepted exactly when it is fresh.
pub check_f_cnt_iff :
    (device : Device) (m_type : MType) (f_cnt : ℕ)
    → device.f_cnt_up < 2 ^ 32
    → f_cnt < 2 ^ 32
    → (check_f_cnt device m_type f_cnt ≡ ok tt) ↔ IsFresh device m_type f_cnt
unfolding check_f_cnt
check_f_cnt_iff device m_type f_cnt h k =
    ((λ e. ground (arith, confirmed-eq_true m_type)), (λ f. ground arith))

-- A counter that is refused is not above the last one, or too far above it; the last case of the
-- switch is never reached.
pub check_f_cnt-refused :
    (device : Device) (m_type : MType) (f_cnt : ℕ) (e : Error)
    → device.f_cnt_up < 2 ^ 32
    → f_cnt < 2 ^ 32
    → check_f_cnt device m_type f_cnt ≡ err e
    → ((f_cnt ≤ device.f_cnt_up) × (e ≡ Error.invalid_argument "FCnt" "not high enough"))
      ⊎ ((device.f_cnt_up + max_f_cnt_gap < f_cnt) × (e ≡ Error.invalid_argument "FCnt" "too high"))
unfolding check_f_cnt
check_f_cnt-refused device m_type f_cnt e h k r = ground arith
