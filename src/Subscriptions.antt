-- ===== src/Subscriptions.antt =====
-- src/subscriptions: which events a user is told of, and what became of each delivery.
pub mod Filter
pub mod Types
pub mod Service
