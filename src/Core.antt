-- ===== src/Core.antt =====
-- Process-wide helpers (app/core).
pub mod BoundedCache
pub mod RedisLock
pub mod TaskRegistry
