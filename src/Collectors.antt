-- ===== src/Collectors.antt =====
-- Collecting market data: src/aidss/collectors.
pub mod Validation
mod Tests
