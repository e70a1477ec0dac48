-- ===== src/RateLimiter/Limiter/Spec.antt =====
-- ratelimiter/token_bucket.go: what a Limiter is to its callers, a bucket for each address. The
-- shards, the hash and the pointers do not show.
pub mod Step
pub mod Refine
pub mod Unseen
use mathlib.Core.Option
use peakshield.Prelude.{Bool, List, [], ◌∷◌, Option, none, some, if◌then◌else◌}
use peakshield.Prelude.Int.{ℤ, ltb_ℤ, sub64}
use peakshield.Prelude.Bytes.{Bytes, eqb}
use peakshield.Prelude.Float.{Float64}
use peakshield.RateLimiter.Bucket.{Bucket, Rates, full_bucket, consume}
use peakshield.RateLimiter.Limiter.{Limiter, allow, run_gc, bucket_idle_timeout}

-- What is done to a limiter: calls of Allow, which read the clock once or twice, and of runGC.
pub data Event : Type 0 where
  request : (ip : Bytes) → (created now : ℤ) → Event
  collect : (now : ℤ) → Event

module _ (float : Float64) where
  -- The buckets of the addresses that have one.
  abbrev pub Clients : Type 0
  Clients = Bytes → Option (Bucket float)

  abbrev pub bucket_for : Rates float → Option (Bucket float) → ℤ → Bucket float
  bucket_for r none created = full_bucket float r created
  bucket_for r (some b) created = b

  abbrev pub update : Clients → Bytes → Bucket float → Clients
  update m ip b j = if eqb ip j then some b else m j

  -- A call takes its token from the address's bucket, or from a full one.
  abbrev pub spec_allow : Rates float → Clients → Bytes → ℤ → ℤ → Clients × Bool
  spec_allow r m ip created now =
      let (b, allowed) = consume float r now (bucket_for r (m ip) created) in
      (update m ip b, allowed)

  abbrev pub unless_idle : ℤ → Option (Bucket float) → Option (Bucket float)
  unless_idle cutoff none = none
  unless_idle cutoff (some b) = if ltb_ℤ b.last_seen_nano cutoff then none else some b

  -- The collector forgets the buckets last used before the cutoff.
  abbrev pub spec_gc : Clients → ℤ → Clients
  spec_gc m now ip = unless_idle (sub64 now bucket_idle_timeout) (m ip)

  -- The limiter at the end, and the answers.
  unfoldable pub run : Limiter float → List Event → Limiter float × List Bool
  run l [] = (l, [])
  run l (request ip created now ∷ es) =
      let (l', allowed) = allow float l ip created now in
      let (end, answers) = run l' es in (end, allowed ∷ answers)
  run l (collect now ∷ es) = run (run_gc float l now) es

  unfoldable pub replay : Rates float → Clients → List Event → Clients × List Bool
  replay r m [] = (m, [])
  replay r m (request ip created now ∷ es) =
      let (m', allowed) = spec_allow r m ip created now in
      let (end, answers) = replay r m' es in (end, allowed ∷ answers)
  replay r m (collect now ∷ es) = replay r (spec_gc m now) es
