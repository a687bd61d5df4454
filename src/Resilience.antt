-- ===== src/Resilience.antt =====
-- app/providers/resilience.py: the guard around every provider fetch, one module for each class.
pub mod Breaker
pub mod Bucket
pub mod Cache
pub mod Retry
pub mod Tests
pub mod Tier
pub mod Flight
