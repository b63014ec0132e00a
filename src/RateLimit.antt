-- ===== src/RateLimit.antt =====
-- common/rate-limit.go: the rate limiter.
pub mod Limiter
pub mod Window
pub mod Accepted
pub mod Runs
