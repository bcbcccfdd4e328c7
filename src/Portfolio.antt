-- ===== src/Portfolio.antt =====
-- Portfolios: src/aidss/portfolio.
pub mod Simulation
mod Tests
