-- ===== src/RateLimiter/Bucket/Eviction.antt =====
-- ratelimiter/token_bucket.go: what it means for an address that runGC forgets its bucket, and what
-- becomes of a bucket whose rate is NaN.
use peakshield.Prelude.{
  ◌≡◌, refl, true, false, Bool, List, [], ◌∷◌, arith, Bool-cases, inl, inr, ap, ◌⊎◌,
}
use peakshield.Prelude.Int.{ℤ, pos, ltb_ℤ, sub64, sub64_self}
use peakshield.Prelude.Float.{Float64}
use peakshield.RateLimiter.Bucket.{
  Bucket, Rates, rates, full_bucket, cap_tokens, refill, take_token, consume,
}
use peakshield.RateLimiter.Bucket.Burst.{answers}

module _ (float : Float64) where
  open float use {Real, of_int, add, sub, mul, div, lt, le, le_or_lt, le_number, le_antisym}

  -- The level of a bucket after its refill at `now`, before the cap.
  abbrev pub refilled : Rates float → ℤ → Bucket float → Real
  refilled l now b = add b.tokens (mul (of_int (sub64 now b.last_refill_nano)) l.rate_per_nano)

  -- A level of at least the burst size is cut to the burst size.
  cap_full :
      (burst x : Real)
      → le (of_int (pos 1)) burst ≡ true
      → le burst x ≡ true
      → cap_tokens float burst x ≡ burst
  unfolding cap_tokens
  cap_full burst x room full =
      elim (le_or_lt x burst (le_number burst x full).1 (le_number burst x full).0) [
        | inl most ↦
            let same : burst ≡ x = le_antisym burst x room full most in ground (arith, same)
        | inr over ↦ rw over refl
      ]

  -- A bucket that has filled up again serves a request as a fresh one does.
  pub full_again :
      (l : Rates float) (now : ℤ) (b : Bucket float)
      → le (of_int (pos 1)) l.burst_size ≡ true
      → ltb_ℤ (pos 0) (sub64 now b.last_refill_nano) ≡ true
      → le l.burst_size (refilled l now b) ≡ true
      → consume float l now (full_bucket float l now) ≡ consume float l now b
  unfolding consume refill full_bucket
  full_again l now b room later full =
      rw (sub64_self now, later, cap_full l.burst_size (refilled l now b) room full)

  -- If it has not, then it does: at a level below one token the request is refused, and after
  -- an eviction it is allowed.
  eviction_seen :
      (l : Rates float) (now : ℤ) (b : Bucket float)
      → ltb_ℤ (pos 0) (sub64 now b.last_refill_nano) ≡ true
      → le (of_int (pos 1)) l.burst_size ≡ true
      → lt l.burst_size (refilled l now b) ≡ false
      → le (of_int (pos 1)) (refilled l now b) ≡ false
      → ((consume float l now b).1 ≡ false)
        × ((consume float l now (full_bucket float l now)).1 ≡ true)
  unfolding consume refill cap_tokens full_bucket take_token
  eviction_seen l now b later room under empty =
      (rw (later, under, empty), rw (sub64_self now, room))

module _ (float : Float64) where
  open float use {
    Real, of_int, add, sub, mul, div, lt, le, lt_le, le_number, add_nan, mul_nan, div_nan,
  }

  abbrev IsNan : Real → Type 0
  IsNan x = le x x ≡ false

  le_nan : (x y : Real) → IsNan y → le x y ≡ false
  le_nan x y h = ground (arith, le_number x y)

  lt_nan : (x y : Real) → IsNan y → lt x y ≡ false
  lt_nan x y h = ground (arith, lt_le x y, le_nan x y h)

  cap_tokens-IsNan : (burst x : Real) → IsNan x → IsNan (cap_tokens float burst x)
  unfolding cap_tokens
  cap_tokens-IsNan burst x h = rw (lt_nan burst x h) h

  -- At a NaN rate a refill makes the level NaN.
  refill-IsNan :
      (l : Rates float) (now : ℤ) (b : Bucket float)
      → IsNan l.rate_per_nano
      → (ltb_ℤ (pos 0) (sub64 now b.last_refill_nano) ≡ true) ⊎ IsNan b.tokens
      → IsNan (refill float l now b).tokens
  unfolding refill
  refill-IsNan l now b h c = elim (Bool-cases (ltb_ℤ (pos 0) (sub64 now b.last_refill_nano))) [
    | inl later ↦ rw later (cap_tokens-IsNan l.burst_size _ (add_nan b.tokens _ (mul_nan _ _ h)))
    | inr not_later ↦ rw not_later (ground (arith, c, not_later))
  ]

  consume-IsNan :
      (l : Rates float) (now : ℤ) (b : Bucket float)
      → IsNan l.rate_per_nano
      → (ltb_ℤ (pos 0) (sub64 now b.last_refill_nano) ≡ true) ⊎ IsNan b.tokens
      → ((consume float l now b).1 ≡ false) × IsNan (consume float l now b).0.tokens
  unfolding consume take_token
  consume-IsNan l now b h c =
      let nan = refill-IsNan l now b h c in
      rw (le_nan (of_int (pos 1)) (refill float l now b).tokens nan) (refl, nan)

  abbrev all_refused : List ℤ → List Bool
  all_refused [] = []
  all_refused (now ∷ later) = false ∷ all_refused later

  answers_nan :
      (l : Rates float) (nows : List ℤ) (b : Bucket float)
      → IsNan l.rate_per_nano
      → IsNan b.tokens
      → answers float l nows b ≡ all_refused nows
  unfolding answers
  answers_nan l [] b h nan = refl
  answers_nan l (now ∷ later) b h nan =
      let (no_token, nan') = consume-IsNan l now b h (inr nan) in
      rw no_token (ap (◌∷◌ false) (answers_nan l later (consume float l now b).0 h nan'))

  -- With RateLimit NaN a bucket refuses every request from the first refill on, whatever it held.
  pub nan_rate_refuses :
      (rate : Real) (burst now : ℤ) (later : List ℤ) (b : Bucket float)
      → IsNan rate
      → ltb_ℤ (pos 0) (sub64 now b.last_refill_nano) ≡ true
      → answers float (rates float rate burst) (now ∷ later) b ≡ all_refused (now ∷ later)
  unfolding answers rates
  nan_rate_refuses rate burst now later b h refills =
      let (no_token, nan') =
        consume-IsNan (rates float rate burst) now b (div_nan rate _ h) (inl refills) in
      rw no_token
        (ap (◌∷◌ false) (answers_nan (rates float rate burst) later _ (div_nan rate _ h) nan'))
