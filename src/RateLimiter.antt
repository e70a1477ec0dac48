-- ===== src/RateLimiter.antt =====
-- ratelimiter/token_bucket.go: the sharded token bucket limiter.
-- Bucket: one bucket and consume. Limiter: the shards over a heap of buckets, Allow, Stats and runGC.
pub mod Bucket
pub mod Hash
pub mod Limiter
pub mod Concurrent
mod Tests
