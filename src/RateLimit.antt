-- ===== src/RateLimit.antt =====
-- src/rate-limit: the two limiters, the service that applies them, and the request interceptor.
pub mod Algorithms
pub mod Service
pub mod Interceptor
pub mod Configuration
