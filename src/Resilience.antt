-- ===== src/Resilience.antt =====
-- The service-governance policies of resilience/ that carry state or loops.
pub mod Breaker
pub mod Bulkhead
pub mod Retry
