-- ===== src/Monitoring.antt =====
-- src/monitoring: the metrics registry and the alert rules.
pub mod Metrics
pub mod Rules
pub mod Alerting
pub mod Buffers
pub mod Logs
pub mod Performance
pub mod Tracing
