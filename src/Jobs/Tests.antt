-- ===== src/Jobs/Tests.antt =====
-- Runs of the job modules at small inputs, and their theorems at those inputs.
mod Queues
mod Leases
