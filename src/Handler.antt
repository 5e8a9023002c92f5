-- ===== src/Handler.antt =====
-- core/handler: the application's side of the network.
pub mod Types
pub mod Stores
pub mod Queue
pub mod ConvertLorawan
pub mod ConvertFields
pub mod World
pub mod RedisStore
pub mod Downlink
pub mod Uplink
pub mod Activation
mod Tests
