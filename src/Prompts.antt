-- ===== src/Prompts.antt =====
-- Prompts and what comes back for them: src/aidss/prompts.
pub mod Validator
