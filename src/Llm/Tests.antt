-- ===== src/Llm/Tests.antt =====
-- Runs of the gateway's modules at small inputs, and their theorems at those inputs.
mod Calls
mod Requests
