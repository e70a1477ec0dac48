-- ===== src/RateLimiter/Bucket/Burst.antt =====
-- ratelimiter/token_bucket.go: how many requests of one address consume allows.
use peakshield.Prelude.{
  ℕ, zero, suc, ◌^◌, ◌<◌, ◌≡◌, refl, Bool, true, false, List, [], ◌∷◌, arith, ap,
}
use peakshield.Prelude.Int.{ℤ, pos, ltb_ℤ, sub64}
use peakshield.Prelude.Float.{Float64}
use peakshield.RateLimiter.Bucket.{Bucket, Rates, rates, full_bucket, refill, take_token, consume}

module _ (float : Float64) where
  open float use {Real, of_int, sub, lt, le, le_trans, of_int_mono, of_int_one, sub_one_exact}

  -- The answers to a series of requests, made at the given times.
  unfoldable pub answers : Rates float → List ℤ → Bucket float → List Bool
  answers l [] b = []
  answers l (now ∷ later) b =
      let (b', allowed) = consume float l now b in allowed ∷ answers l later b'

  -- The clock has not moved past the last refill at any of these times.
  abbrev Frozen : ℤ → List ℤ → Type 0
  Frozen since [] = Unit {0}
  Frozen since (now ∷ later) = (ltb_ℤ (pos 0) (sub64 now since) ≡ false) × Frozen since later

  -- `n` requests are allowed, and all that come later are refused.
  abbrev first_allowed : ℕ → List ℤ → List Bool
  first_allowed n [] = []
  first_allowed zero (now ∷ later) = false ∷ first_allowed zero later
  first_allowed (suc n) (now ∷ later) = true ∷ first_allowed n later

  one_of_suc : (n : ℕ) → le (of_int (pos 1)) (of_int (pos (suc n))) ≡ true
  one_of_suc n = of_int_mono _ _ (omega arith)

  pub consume_frozen :
      (l : Rates float) (now : ℤ) (b : Bucket float)
      → ltb_ℤ (pos 0) (sub64 now b.last_refill_nano) ≡ false
      → consume float l now b ≡ take_token float (record b { last_seen_nano = now })
  unfolding consume refill
  consume_frozen l now b h = rw h

  pub take_token_some :
      (b : Bucket float) (n : ℕ)
      → suc n < 2 ^ 53
      → b.tokens ≡ of_int (pos (suc n))
      → take_token float b ≡ (record b { tokens = of_int (pos n) }, true)
  unfolding take_token
  take_token_some b n small e = rw (e, one_of_suc n, sub_one_exact n small)

  pub take_token_none :
      (b : Bucket float) → b.tokens ≡ of_int (pos 0) → take_token float b ≡ (b, false)
  unfolding take_token
  take_token_none b e = rw (e, of_int_one)

  answers-Frozen :
      (l : Rates float) (nows : List ℤ) (b : Bucket float) (n : ℕ)
      → n < 2 ^ 53
      → b.tokens ≡ of_int (pos n)
      → Frozen b.last_refill_nano nows
      → answers l nows b ≡ first_allowed n nows
  unfolding answers
  answers-Frozen l [] b zero small e h = refl
  answers-Frozen l [] b (suc n) small e h = refl
  answers-Frozen l (now ∷ later) b zero small e (h, hs) =
      rw (consume_frozen l now b h, take_token_none (record b { last_seen_nano = now }) e)
        (ap (◌∷◌ false)
          (answers-Frozen l later (record b { last_seen_nano = now }) zero small e hs))
  answers-Frozen l (now ∷ later) b (suc n) small e (h, hs) =
      rw (consume_frozen l now b h, take_token_some (record b { last_seen_nano = now }) n small e)
        (ap (◌∷◌ true) (
          answers-Frozen l later (record b { last_seen_nano = now; tokens = of_int (pos n) }) n
            (omega arith) refl hs))

  -- A fresh bucket of a capacity `burst` below 2^53 allows exactly the first `burst` requests, and
  -- refuses all others, for as long as the clock does not move past the bucket's creation.
  pub burst_exact :
      (rate : Real) (burst : ℕ) (created : ℤ) (nows : List ℤ)
      → burst < 2 ^ 53
      → Frozen created nows
      → answers
          (rates float rate (pos burst))
          nows
          (full_bucket float (rates float rate (pos burst)) created)
        ≡ first_allowed burst nows
  unfolding full_bucket rates
  burst_exact rate burst created nows small h =
      answers-Frozen (rates float rate (pos burst)) nows _ burst small refl h
