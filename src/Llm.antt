-- ===== src/Llm.antt =====
-- The LLM gateway: src/aidss/llm.
pub mod Retry
pub mod RateLimiter
pub mod CircuitBreaker
pub mod Router
pub mod Cost
pub mod Gateway
mod Tests
