-- ===== src/NetworkServer/Adr/Loss.antt =====
-- The packets that are missing in a window of frames.
use ttn.Base.{ℕ, ◌+◌, ◌^◌, ◌≤◌, ◌<◌, ◌≡◌, List, [], ◌∷◌, arith, length}
use ttn.NetworkServer.Device.{Frame}
use ttn.NetworkServer.Adr.{last_f_cnt, sent_packets, lost_packets}

-- The newest frame comes first, and every counter is below the one before it.
abbrev pub IsDescending : ℕ → List Frame → Type 0
IsDescending newest [] = Unit
IsDescending newest (f ∷ fs) = (f.f_cnt < newest) × IsDescending f.f_cnt fs

abbrev pub oldest : ℕ → List Frame → ℕ
oldest newest [] = newest
oldest newest (f ∷ fs) = oldest f.f_cnt fs

oldest_le :
    (newest : ℕ) (fs : List Frame) → IsDescending newest fs → oldest newest fs + length fs ≤ newest
oldest_le newest [] h = omega arith
oldest_le newest (f ∷ fs) (h, k) = omega (arith, oldest_le f.f_cnt fs k)

last_f_cnt_lem : (newest : ℕ) (fs : List Frame) → last_f_cnt newest fs ≡ oldest newest fs
unfolding last_f_cnt
last_f_cnt_lem newest [] = omega arith
last_f_cnt_lem newest (f ∷ fs) = last_f_cnt_lem f.f_cnt fs

-- In a window whose counters go down, the packets that were sent are the counters from the oldest frame
-- to the newest, and those that are lost are the ones of them that no frame has.
pub lost_packets_lem :
    (f : Frame) (fs : List Frame)
    → f.f_cnt + 1 < 2 ^ 32
    → IsDescending f.f_cnt fs
    → (sent_packets f fs + oldest f.f_cnt fs ≡ f.f_cnt + 1)
      × (lost_packets f fs + length (f ∷ fs) ≡ sent_packets f fs)
unfolding sent_packets lost_packets
lost_packets_lem f fs h k =
    let low = oldest_le f.f_cnt fs k in
    let last = last_f_cnt_lem f.f_cnt fs in (omega arith, omega arith)
