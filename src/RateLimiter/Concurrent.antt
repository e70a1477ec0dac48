-- ===== src/RateLimiter/Concurrent.antt =====
-- ratelimiter/token_bucket.go: calls of Allow and sweeps of runGC over one Limiter, interleaved in any
-- order. A call is cut where it holds no lock: between its lookup, getOrCreate and consume.
pub mod Held
pub mod Laws
pub mod Single
pub mod Budget
pub mod Instant
pub mod Linear
mod Tests
use peakshield.Prelude.{ℕ, ◌≡◌, ◌==◌, Bool, true, List, Option, none, some, if◌then◌else◌}
use peakshield.Prelude.Int.{ℤ, pos}
use peakshield.Prelude.Family.{put}
use peakshield.Prelude.Bytes.{Bytes}
use peakshield.Prelude.Float.{Float64}
use peakshield.RateLimiter.Bucket.{Rates}
use peakshield.RateLimiter.Limiter.{Limiter, new, lookup, get_or_create, consume_at, evict}

-- Where a call of Allow stands.
pub data Pc : Type 0 where
  looking : Pc  -- before the lookup under the read lock
  creating : Pc  -- the lookup found nothing; before getOrCreate
  consuming : (p : ℕ) → Pc  -- has the bucket at `p`; before consume
  answered : (allowed : Bool) → Pc

module _ (float : Float64) where
  pub record System : Type 0 where
    pub limiter : Limiter float
    pub pc : ℕ → Pc

  unfoldable pub init : Rates float → System
  unfolding new
  init r = record { limiter = new float r; pc = λ _. looking }

  -- if !exists
  abbrev pub looked : Option ℕ → Pc
  looked none = creating
  looked (some p) = consuming p

  -- The next part of a call for `ip`, at the time `now`; `none` when it has returned.
  unfoldable pub attempt : Limiter float → Bytes → ℤ → Pc → Option (Limiter float × Pc)
  unfolding lookup get_or_create consume_at
  attempt l ip now looking = some (l, looked (lookup float l ip))
  attempt l ip now creating = let (l', p) = get_or_create float l ip now in some (l', consuming p)
  attempt l ip now (consuming p) =
      let (l', allowed) = consume_at float l p now in some (l', answered allowed)
  attempt l ip now (answered allowed) = none

  -- Call `i` goes on, where the calls are for the addresses `ips`.
  unfoldable pub step : (ℕ → Bytes) → ℕ → ℤ → System → Option System
  unfolding attempt
  step ips i now s = elim (attempt s.limiter (ips i) now (s.pc i)) [
    | none ↦ none
    | some (l, c) ↦ some (record { limiter = l; pc = put s.pc i c })
  ]

  -- Phase 2 of runGC in one shard, under its write lock, with the candidates of some phase 1.
  unfoldable pub collect : ℕ → ℤ → List Bytes → Limiter float → Limiter float
  unfolding evict
  collect shard cutoff candidates l = record l {
    shards = put l.shards shard (evict float cutoff l.heap candidates (l.shards shard, 0)).0;
  }

  -- The states that can be reached, with the garbage collector running or not. Any candidates are
  -- taken, those of phase 1 among them.
  pub data Reach (ips : ℕ → Bytes) (r : Rates float) (gc : Bool) : System → Type 0 where
    start : {s : System} → s ≡ init r → Reach ips r gc s
    serve :
        {s t : System} (i : ℕ) (now : ℤ)
        → step ips i now s ≡ some t
        → Reach ips r gc s
        → Reach ips r gc t
    sweep :
        {s t : System} (shard : ℕ) (cutoff : ℤ) (candidates : List Bytes)
        → gc ≡ true
        → t ≡ record s { limiter = collect shard cutoff candidates s.limiter }
        → Reach ips r gc s
        → Reach ips r gc t
