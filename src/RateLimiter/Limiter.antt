-- ===== src/RateLimiter/Limiter.antt =====
-- ratelimiter/token_bucket.go: Limiter, with Allow, getOrCreate, Stats and runGC. The maps of the
-- shards hold pointers, so the buckets stand in a heap.
pub mod Laws
pub mod Gc
pub mod Spec
pub mod Loop
use peakshield.Prelude.{
  ℕ, zero, suc, ◌+◌, Bool, List, [], ◌∷◌, Option, none, some, length, if◌then◌else◌,
}
use peakshield.Prelude.Int.{ℤ, pos, ltb_ℤ, sub64}
use peakshield.Prelude.Family.{put}
use peakshield.Prelude.Bytes.{Bytes, eqb}
use peakshield.Prelude.Float.{Float64}
use peakshield.RateLimiter.Bucket.{Bucket, Rates, full_bucket, consume}
use peakshield.RateLimiter.Hash.{shard_for, num_shards}

-- 5 * time.Minute, in nanoseconds
abbrev pub bucket_idle_timeout : ℤ
bucket_idle_timeout = pos 300_000_000_000

-- map[string]*bucket
abbrev pub Shard : Type 0
Shard = List (Bytes × ℕ)

-- s.buckets[ip]
unfoldable pub find : Bytes → Shard → Option ℕ
find ip [] = none
find ip ((k, p) ∷ s) = if eqb k ip then some p else find ip s

-- delete(s.buckets, ip)
unfoldable pub delete : Bytes → Shard → Shard
delete ip [] = []
delete ip ((k, p) ∷ s) = if eqb k ip then delete ip s else (k, p) ∷ delete ip s

module _ (float : Float64) where
  pub record Limiter : Type 0 where
    pub rates : Rates float
    pub shards : ℕ → Shard
    pub heap : ℕ → Bucket float
    pub next : ℕ  -- the first address that no bucket was allocated at

  -- New, with the numbers computed from the configuration
  unfoldable pub new : Rates float → Limiter
  unfolding full_bucket
  new r = record { rates = r; shards = λ _. []; heap = λ _. full_bucket float r (pos 0); next = 0 }

  -- the lookup of Allow under the read lock
  unfoldable pub lookup : Limiter → Bytes → Option ℕ
  unfolding find
  lookup l ip = find ip (l.shards (shard_for ip))

  -- a new bucket, and its entry in the map
  unfoldable pub insert : Limiter → Bytes → ℤ → Limiter
  unfolding full_bucket
  insert l ip now = record l {
    shards = put l.shards (shard_for ip) ((ip, l.next) ∷ l.shards (shard_for ip));
    heap = put l.heap l.next (full_bucket float l.rates now);
    next = suc l.next;
  }

  -- getOrCreate, under the write lock: the second lookup, and the insertion
  unfoldable pub get_or_create : Limiter → Bytes → ℤ → Limiter × ℕ
  unfolding lookup insert
  get_or_create l ip now = elim (lookup l ip) [ some p ↦ (l, p) | none ↦ (insert l ip now, l.next) ]

  -- consume on the bucket at `p`, under the bucket's lock
  unfoldable pub consume_at : Limiter → ℕ → ℤ → Limiter × Bool
  unfolding consume
  consume_at l p now =
      let (b, allowed) = consume float l.rates now (l.heap p) in
      (record l { heap = put l.heap p b }, allowed)

  -- Allow, with nobody between its steps: getOrCreate reads the clock at `created`, consume at `now`.
  unfoldable pub allow : Limiter → Bytes → ℤ → ℤ → Limiter × Bool
  unfolding lookup get_or_create consume_at
  allow l ip created now = elim (lookup l ip) [
    | some p ↦ consume_at l p now
    | none ↦ let (l', p) = get_or_create l ip created in consume_at l' p now
  ]

  -- phase 1 of runGC in one shard: the addresses that look idle
  unfoldable pub to_evict : ℤ → (ℕ → Bucket float) → Shard → List Bytes
  to_evict cutoff heap [] = []
  to_evict cutoff heap ((ip, p) ∷ s) =
      let rest = to_evict cutoff heap s in
      if ltb_ℤ (heap p).last_seen_nano cutoff then ip ∷ rest else rest

  -- phase 2 for one candidate: it is deleted if it is there and still idle, and counted
  unfoldable pub evict_one : ℤ → (ℕ → Bucket float) → Bytes → Shard × ℕ → Shard × ℕ
  unfolding find delete
  evict_one cutoff heap ip (s, n) = elim (find ip s) [
    | none ↦ (s, n)
    | some p ↦ if ltb_ℤ (heap p).last_seen_nano cutoff then (delete ip s, suc n) else (s, n)
  ]

  unfoldable pub evict : ℤ → (ℕ → Bucket float) → List Bytes → Shard × ℕ → Shard × ℕ
  unfolding evict_one
  evict cutoff heap [] r = r
  evict cutoff heap (ip ∷ ips) r = evict cutoff heap ips (evict_one cutoff heap ip r)

  -- runGC in one shard, with nobody between the phases
  unfoldable pub sweep : ℤ → (ℕ → Bucket float) → Shard → Shard × ℕ
  unfolding to_evict evict
  sweep cutoff heap s = evict cutoff heap (to_evict cutoff heap s) (s, 0)

  -- runGC, at the time `now`
  unfoldable pub run_gc : Limiter → ℤ → Limiter
  unfolding sweep
  run_gc l now = record l {
    shards = λ i. (sweep (sub64 now bucket_idle_timeout) l.heap (l.shards i)).0;
  }

  total_buckets : ℕ → (ℕ → Shard) → ℕ
  total_buckets zero shards = 0
  total_buckets (suc n) shards = length (shards n) + total_buckets n shards

  pub record LimiterStats : Type 0 where
    pub tracked_ips : ℕ
    pub num_shards : ℕ
    pub burst_size : ℤ
    pub rate_per_sec : Float64.Real float

  unfoldable pub stats : Limiter → LimiterStats
  unfolding total_buckets
  stats l = record {
    tracked_ips = total_buckets num_shards l.shards;
    num_shards = num_shards;
    burst_size = Float64.to_int float l.rates.burst_size;
    rate_per_sec =
        Float64.mul float l.rates.rate_per_nano (Float64.of_int float (pos 1_000_000_000));
  }
