-- ===== src/Dashboard.antt =====
-- internal/dashboard: the log buffer and the event bus.
pub mod LogBuffer
pub mod EventBus
