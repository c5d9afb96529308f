-- ===== src/Limits.antt =====
-- What bounds the traffic of one account or of the upstream: rate limits, in-flight slots and the
-- circuit breaker.
pub mod Rate
pub mod Guard
pub mod Breaker
