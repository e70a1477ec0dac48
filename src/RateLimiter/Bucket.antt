-- ===== src/RateLimiter/Bucket.antt =====
-- ratelimiter/token_bucket.go: the struct bucket and consume.
pub mod Bounds
pub mod Burst
pub mod Eviction
use peakshield.Prelude.{Bool, true, false, if◌then◌else◌}
use peakshield.Prelude.Int.{ℤ, pos, ltb_ℤ, sub64}
use peakshield.Prelude.Float.{Float64}

module _ (float : Float64) where
  open float use {Real, of_int, add, sub, mul, div, lt, le}

  pub record Bucket : Type 0 where
    pub tokens : Real
    pub last_refill_nano : ℤ  -- int64
    pub last_seen_nano : ℤ  -- int64

  -- The two numbers of a Limiter that its methods read.
  pub record Rates : Type 0 where
    pub rate_per_nano : Real
    pub burst_size : Real

  -- as New computes them from RateLimit and BurstSize
  unfoldable pub rates : Real → ℤ → Rates
  rates rate_limit burst = record {
    rate_per_nano = div rate_limit (of_int (pos 1_000_000_000));
    burst_size = of_int burst;
  }

  -- the bucket of an address that is seen first at `now`
  unfoldable pub full_bucket : Rates → ℤ → Bucket
  full_bucket l now = record { tokens = l.burst_size; last_refill_nano = now; last_seen_nano = now }

  -- `if b.tokens > l.burstSize { b.tokens = l.burstSize }`
  unfoldable pub cap_tokens : Real → Real → Real
  cap_tokens burst tokens = if lt burst tokens then burst else tokens

  -- the lazy refill
  unfoldable pub refill : Rates → ℤ → Bucket → Bucket
  unfolding cap_tokens
  refill l now b =
      let elapsed = sub64 now b.last_refill_nano in
      if ltb_ℤ (pos 0) elapsed
      then record b {
        tokens = cap_tokens l.burst_size (add b.tokens (mul (of_int elapsed) l.rate_per_nano));
        last_refill_nano = now;
      }
      else b

  -- the token consumption
  unfoldable pub take_token : Bucket → Bucket × Bool
  take_token b =
      if le (of_int (pos 1)) b.tokens
      then (record b { tokens = sub b.tokens (of_int (pos 1)) }, true)
      else (b, false)

  unfoldable pub consume : Rates → ℤ → Bucket → Bucket × Bool
  unfolding refill take_token
  consume l now b = take_token (record (refill l now b) { last_seen_nano = now })
