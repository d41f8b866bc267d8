-- ===== src/RateLimiter.antt =====
-- The rate limiter (backend/rate_limiter.py).
pub mod Buckets
pub mod Granted
pub mod Spans
mod Examples
