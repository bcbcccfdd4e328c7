-- ===== src/Recommendations.antt =====
-- Recommendations: src/aidss/recommendations.
pub mod Calibration
pub mod Levels
pub mod Engine
pub mod Strategy
pub mod Rules
mod Tests
