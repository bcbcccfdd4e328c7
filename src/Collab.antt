-- ===== src/Collab.antt =====
-- What accounts show each other: src/aidss/collab.
pub mod Sharing
mod Tests
