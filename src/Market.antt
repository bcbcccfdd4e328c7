-- ===== src/Market.antt =====
-- Rules of the exchange: src/aidss/market.
pub mod IdxRules
mod Tests
