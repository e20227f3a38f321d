-- ===== src/RateLimit.antt =====
-- internal/ratelimit: token buckets, their storage, and the limits of a request.
pub mod Float64
pub mod TokenBucket
pub mod Key
pub mod Limiter
pub mod Middleware
