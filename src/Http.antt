-- ===== src/Http.antt =====
-- The HTTP edge of the API.
pub mod RateLimiter
