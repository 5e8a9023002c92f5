-- ===== src/NetworkServer/Device.antt =====
-- core/networkserver/device/device.go and frames.go: a device, and the history of its frames.
-- The times LastSeen, CreatedAt and UpdatedAt are left out.
use ttn.Base.{
  ℕ, Bool, List, [], ◌∷◌, Option, none, some, String, Result, ok, err, Error, take, length,
  length-take, ◌≡◌, ◌≤◌, refl, arith, inl, inr, Option-cases,
}
use ttn.Base.Int.{ℤ}

pub record Options : Type 0 where
  pub activation_constraints : String
  pub disable_f_cnt_check : Bool
  pub uses_32_bit_f_cnt : Bool

-- `nb_trans` and `failed` are never negative: the code counts them up from 0.
pub record AdrSettings : Type 0 where
  pub band : String
  pub margin : ℤ
  pub send_req : Bool
  pub failed : ℕ
  pub data_rate : List ℕ
  pub tx_power : ℤ
  pub nb_trans : ℕ

pub record Device : Type 0 where
  pub dev_eui : ℕ
  pub app_eui : ℕ
  pub app_id : String
  pub dev_id : String
  pub dev_addr : ℕ
  pub nwk_s_key : ℕ
  pub f_cnt_up : ℕ
  pub f_cnt_down : ℕ
  pub options : Options
  pub adr : AdrSettings

abbrev pub frames_history_size : ℕ
frames_history_size = 20

-- The SNR is in quarters of a decibel.
pub record Frame : Type 0 where
  pub f_cnt : ℕ
  pub snr : ℤ
  pub gateway_count : ℕ

-- The calls of Redis that fail, each with its error.
pub record Faults : Type 0 where
  pub add : Option Error
  pub trim : Option Error
  pub get : Option Error
  pub clear : Option Error

-- What a call leaves of the history, and its error.
attempt : List Frame → Option Error → List Frame → List Frame × Result (Unit {0})
attempt before none after = (after, ok tt)
attempt before (some e) after = (before, err e)

-- AddFront, and Trim if that succeeds.
pub push : Faults → List Frame → Frame → List Frame × Result (Unit {0})
unfolding attempt
push faults history frame = elim faults.add [
  | some e ↦ (history, err e)
  | none ↦ attempt (frame ∷ history) faults.trim (take frames_history_size (frame ∷ history))
]

pub get : Faults → List Frame → Result (List Frame)
get faults history = elim faults.get [
  | some e ↦ err e
  | none ↦ ok (take frames_history_size history)
]

unfoldable pub clear : Faults → List Frame → List Frame × Result (Unit {0})
unfolding attempt
clear faults history = attempt history faults.clear []

attempt-eq_ok :
    (before after : List Frame) (fault : Option Error)
    → (attempt before fault after).1 ≡ ok tt
    → attempt before fault after ≡ (after, ok tt)
unfolding attempt
attempt-eq_ok before after none h = refl
attempt-eq_ok before after (some e) h = cc

pub clear-eq_ok :
    (faults : Faults) (history : List Frame)
    → (clear faults history).1 ≡ ok tt
    → clear faults history ≡ ([], ok tt)
unfolding clear
clear-eq_ok faults history h = attempt-eq_ok history [] faults.clear h

-- The history never holds more than a window, if trimming succeeds.
pub push-length :
    (faults : Faults) (history : List Frame) (frame : Frame)
    → faults.trim ≡ none
    → length history ≤ frames_history_size
    → length (push faults history frame).0 ≤ frames_history_size
unfolding push attempt
push-length faults history frame t h = elim (Option-cases faults.add) [
  | inl e ↦ rw (e, t) (omega (arith, length-take frames_history_size (frame ∷ history)))
  | inr (x, e) ↦ rw e h
]
