-- ===== src/Security.antt =====
-- Who may do what: src/aidss/security.
pub mod Rbac
mod Tests
