-- ===== src/RateLimiter/Concurrent/Linear/Behind.antt =====
-- ratelimiter/token_bucket.go: buckets that are created and not used yet.
use peakshield.Prelude.{◌≡◌, refl, sym, Bool, true, false, Option, none, some, arith, if◌then◌else◌}
use peakshield.Prelude.Int.{ℤ}
use peakshield.Prelude.Float.{Float64}
use peakshield.RateLimiter.Bucket.{Bucket, Rates, full_bucket}
use peakshield.RateLimiter.Limiter.Spec.{bucket_for}

module _ (float : Float64) (r : Rates float) where
  -- The limiter's bucket, where the table holds the given one. A call that has created a bucket and
  -- has not taken effect leaves one that the table does not know, full since its creation.
  abbrev pub Behind : Option (Bucket float) → Option (Bucket float) → Type 0
  Behind none none = Unit
  Behind none (some b) = b ≡ full_bucket float r b.last_refill_nano
  Behind (some b) o = o ≡ some b

  pub Behind-bucket_for :
      (o : Option (Bucket float)) (b : Bucket float)
      → Behind o (some b)
      → bucket_for float r o b.last_refill_nano ≡ b
  Behind-bucket_for none b h = sym h
  Behind-bucket_for (some c) b h = sym (ground (arith, h))

  pub Behind-created :
      (m o : Option (Bucket float)) (now : ℤ)
      → Behind m o
      → Behind m (some (bucket_for float r o now))
  unfolding full_bucket
  Behind-created none none now h = refl
  Behind-created none (some b) now h = h
  Behind-created (some c) none now h = absurd (ground (arith, h))
  Behind-created (some c) (some b) now h = h

  pub Behind-if :
      (b : Bool) (x : Bucket float) (m o : Option (Bucket float))
      → Behind m o
      → Behind (if b then some x else m) (if b then some x else o)
  Behind-if true x m o h = refl
  Behind-if false x m o h = h
