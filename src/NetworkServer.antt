-- ===== src/NetworkServer.antt =====
-- core/networkserver: the state of the devices, the frame counters and adaptive data rate.
pub mod Device
pub mod Mac
pub mod Adr
pub mod Handlers
pub mod Devices
pub mod Prefixes
mod Tests
