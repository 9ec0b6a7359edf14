-- ===== src/Rebalancing.antt =====
-- src/rebalancing: how far a portfolio has drifted from its target weights.
pub mod Drift
