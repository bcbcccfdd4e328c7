-- ===== src/Jobs.antt =====
-- Background work: src/aidss/jobs.
pub mod Queue
pub mod Leader
pub mod Quota
pub mod Worker
mod Tests
