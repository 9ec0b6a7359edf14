-- ===== src/Tests.antt =====
-- The properties at concrete inputs.
mod CacheRuns
mod MonitoringRuns
mod LimiterRuns
mod ServiceRuns
mod SubscriptionRuns
mod RecordRuns
mod WebhookRuns
mod AuthRuns
mod AuditRuns
mod StakingRuns
mod FileRuns
mod DriftRuns
mod PortfolioRuns
mod QueueRuns
mod CursorRuns
mod ConfigurationRuns
mod LoggingRuns
mod UploadRuns
mod BufferRuns
