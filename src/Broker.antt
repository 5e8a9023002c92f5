-- ===== src/Broker.antt =====
-- core/broker: the hub between routers, the network server and the handlers.
pub mod Deduplicator
pub mod Uplink
pub mod Registry
pub mod Downlink
pub mod Activation
