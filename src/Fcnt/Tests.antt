-- ===== src/Fcnt/Tests.antt =====
-- Concrete frame counters.
use ttn.Base.{◌%◌, ◌^◌, ◌≡◌, arith}
use ttn.Fcnt.{get_full, get_full-low_bits}

get_full-low_bits_example : get_full 65530 (65540 % 2 ^ 16) ≡ 65540
get_full-low_bits_example = get_full-low_bits 65530 65540 (omega arith) (omega arith) (omega arith)
