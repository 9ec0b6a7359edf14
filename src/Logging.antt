-- ===== src/Logging.antt =====
-- src/logging: what is kept out of the logs, and how exceptions are answered.
pub mod Redact
pub mod Errors
pub mod ExceptionFilter
