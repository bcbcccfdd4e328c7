-- ===== src/Realtime.antt =====
-- Events to the browsers of a user: src/aidss/realtime.
pub mod EventHub
mod Tests
