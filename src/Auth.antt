-- ===== src/Auth.antt =====
-- src/auth: who a request is from, and the tokens that say so.
pub mod Types
pub mod Storage
pub mod Service
