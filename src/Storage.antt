-- ===== src/Storage.antt =====
-- core/storage: the stores on top of Redis.
pub mod Redis
pub mod Queue
pub mod Map
pub mod Options
mod Tests
