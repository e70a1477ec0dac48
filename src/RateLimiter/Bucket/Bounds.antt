-- ===== src/RateLimiter/Bucket/Bounds.antt =====
-- ratelimiter/token_bucket.go: the fill level of a bucket under consume.
use peakshield.Prelude.{zero, suc, ◌≡◌, true, arith, inl, inr, Bool-cases}
use peakshield.Prelude.Int.{ℤ, pos, negsuc, ltb_ℤ, sub64}
use peakshield.Prelude.Float.{Float64}
use peakshield.RateLimiter.Bucket.{Bucket, Rates, cap_tokens, refill, take_token, consume}

module _ (float : Float64) where
  open float use {
    Real, of_int, add, sub, mul, div, lt, le, le_trans, le_or_lt, lt_le, le_number, add_nonneg,
    scale_nonneg, sub_one, lt_not_le, mul_nan, add_nan, div_nan,
  }

  abbrev zero_tokens : Real
  zero_tokens = of_int (pos 0)

  -- Between empty and full.
  abbrev pub InBounds : Rates float → Bucket float → Type 0
  InBounds l b = (le zero_tokens b.tokens ≡ true) × (le b.tokens l.burst_size ≡ true)

  -- Neither the refill rate nor the capacity is negative or NaN.
  abbrev pub Sound : Rates float → Type 0
  Sound l = (le zero_tokens l.rate_per_nano ≡ true) × (le zero_tokens l.burst_size ≡ true)

  cap_tokens-bounds :
      (burst x : Real)
      → le zero_tokens burst ≡ true
      → le zero_tokens x ≡ true
      → (le zero_tokens (cap_tokens float burst x) ≡ true)
        × (le (cap_tokens float burst x) burst ≡ true)
  unfolding cap_tokens
  cap_tokens-bounds burst x hb hx = elim (Bool-cases (lt burst x)) [
    | inl over ↦ rw over (hb, (le_number zero_tokens burst hb).1)
    | inr fits ↦ rw fits (
      hx,
      ground (
        arith,
        le_or_lt x burst (le_number zero_tokens x hx).1 (le_number zero_tokens burst hb).1,
      ),
    )
  ]

  scaled :
      (elapsed : ℤ) (rate : Real)
      → ltb_ℤ (pos 0) elapsed ≡ true
      → le zero_tokens rate ≡ true
      → le zero_tokens (mul (of_int elapsed) rate) ≡ true
  scaled (pos zero) rate h k = absurd (ground arith)
  scaled (pos (suc n)) rate h k = scale_nonneg n rate k
  scaled (negsuc n) rate h k = absurd (ground arith)

  refill-InBounds :
      (l : Rates float) (now : ℤ) (b : Bucket float)
      → Sound l
      → InBounds l b
      → InBounds l (refill float l now b)
  unfolding refill
  refill-InBounds l now b (hr, hb) (lo, hi) =
      elim (Bool-cases (ltb_ℤ (pos 0) (sub64 now b.last_refill_nano))) [
        | inl later ↦ rw later (
            cap_tokens-bounds l.burst_size _ hb (
              add_nonneg b.tokens _ lo
                (scaled (sub64 now b.last_refill_nano) l.rate_per_nano later hr)))
        | inr not_later ↦ rw not_later (lo, hi)
      ]

  take_token-InBounds :
      (l : Rates float) (b : Bucket float) → InBounds l b → InBounds l (take_token float b).0
  unfolding take_token
  take_token-InBounds l b (lo, hi) = elim (Bool-cases (le (of_int (pos 1)) b.tokens)) [
    | inl enough ↦
        rw enough
          ((sub_one b.tokens enough).0, le_trans _ b.tokens _ (sub_one b.tokens enough).1 hi)
    | inr empty ↦ rw empty (lo, hi)
  ]

  -- For a rate and a burst size that are not negative: a bucket that is between empty and full
  -- stays so, whether a request is allowed or refused.
  pub consume-InBounds :
      (l : Rates float) (now : ℤ) (b : Bucket float)
      → Sound l
      → InBounds l b
      → InBounds l (consume float l now b).0
  unfolding consume
  consume-InBounds l now b sound ok = take_token-InBounds l _ (refill-InBounds l now b sound ok)
