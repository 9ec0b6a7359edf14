-- ===== src/Cache.antt =====
-- src/cache: the memory tier, the Redis tier and the service over both.
pub mod Memory
pub mod Backend
pub mod Service
pub mod Configuration
