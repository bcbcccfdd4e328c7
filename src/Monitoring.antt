-- ===== src/Monitoring.antt =====
-- Watching the market for readers: src/aidss/monitoring.
pub mod Alerts
pub mod Recording
pub mod Agenda
mod Tests
