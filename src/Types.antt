-- ===== src/Types.antt =====
-- core/types: the values that the messages carry.
pub mod DataRate
pub mod Hex
pub mod FixedBytes
pub mod DevAddr
mod Tests
