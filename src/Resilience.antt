-- ===== src/Resilience.antt =====
-- Timeouts, retries and circuit breakers around every call that leaves the process
-- (app/resilience).
pub mod Breaker
pub mod Policy
pub mod Retry
pub mod Guard
pub mod Concrete
pub mod Fixtures
mod Examples
mod GuardExamples
