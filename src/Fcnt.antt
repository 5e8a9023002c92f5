-- ===== src/Fcnt.antt =====
-- utils/fcnt/fcnt.go: the full 32-bit frame counter from its 16 low bits.
pub mod Tests
use ttn.Base.{ℕ, ◌+◌, ◌*◌, ◌/◌, ◌%◌, ◌^◌, ◌≤◌, ◌<◌, ◌≡◌, ◌⊎◌, arith, ltb, leb, if◌then◌else◌}

abbrev max_uint16 : ℕ
max_uint16 = 2 ^ 16

-- The sum and the product of the last branch are taken in uint32.
unfoldable pub get_full : ℕ → ℕ → ℕ
get_full full lsb =
    if ltb full lsb
    then lsb
    else if leb (full % max_uint16) lsb
    then (lsb + full / max_uint16 * max_uint16) % 2 ^ 32
    else (lsb + (full / max_uint16 + 1) * max_uint16) % 2 ^ 32

-- GetFull restores every counter that is at most 65535 frames ahead of the last one.
pub get_full-low_bits :
    (full n : ℕ) → full ≤ n → n < full + 2 ^ 16 → n < 2 ^ 32 → get_full full (n % 2 ^ 16) ≡ n
unfolding get_full
get_full-low_bits full n p q r = ground arith

-- The result is a 32-bit counter with the given low bits, and it is not below the last counter unless
-- the counter has to start again at zero.
pub get_full-bounds :
    (full lsb : ℕ)
    → full < 2 ^ 32
    → lsb < 2 ^ 16
    → (get_full full lsb % 2 ^ 16 ≡ lsb)
      × (get_full full lsb < 2 ^ 32)
      × ((full ≤ get_full full lsb) ⊎ ((get_full full lsb ≡ lsb) × (2 ^ 32 ≤ full + 2 ^ 16)))
unfolding get_full
get_full-bounds full lsb p q = ground arith
