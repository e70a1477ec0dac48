-- ===== src/RateLimiter/Limiter/Gc.antt =====
-- ratelimiter/token_bucket.go: what runGC removes.
use peakshield.Prelude.{
  ℕ, ◌≡◌, refl, ◌∙◌, Bool, true, false, ◌&&◌, ◌||◌, List, [], ◌∷◌, Option, none, some, arith,
  if◌then◌else◌,
}
use peakshield.Prelude.Int.{ℤ, ltb_ℤ, sub64}
use peakshield.Prelude.Bytes.{Bytes, eqb, eqb_iff}
use peakshield.Prelude.Float.{Float64}
use peakshield.RateLimiter.Bucket.{Bucket}
use peakshield.RateLimiter.Hash.{shard_for}
use peakshield.RateLimiter.Limiter.{
  Shard, Limiter, find, delete, to_evict, evict_one, evict, sweep, run_gc, lookup,
  bucket_idle_timeout,
}

find-delete :
    (ip j : Bytes) (s : Shard) → find j (delete ip s) ≡ (if eqb ip j then none else find j s)
unfolding find delete
find-delete ip j [] = ground arith
find-delete ip j ((k, p) ∷ s) =
    ground (arith, eqb_iff ip j, eqb_iff k ip, eqb_iff k j, find-delete ip j s)

abbrev pub contains : Bytes → List Bytes → Bool
contains j [] = false
contains j (ip ∷ ips) = eqb ip j || contains j ips

module _ (float : Float64) (cutoff : ℤ) (heap : ℕ → Bucket float) where
  -- What is left of an entry: it goes if it is a candidate and its bucket is idle.
  abbrev pub left_over : Bool → Option ℕ → Option ℕ
  left_over candidate none = none
  left_over candidate (some p) =
      if candidate && ltb_ℤ (heap p).last_seen_nano cutoff then none else some p

  find-evict_one :
      (ip j : Bytes) (s : Shard) (n : ℕ)
      → find j (evict_one float cutoff heap ip (s, n)).0 ≡ left_over (eqb ip j) (find j s)
  unfolding evict_one
  find-evict_one ip j s n = ground (arith, find-delete ip j s, eqb_iff ip j)

  left_over_twice : (a b : Bool) (o : Option ℕ) → left_over b (left_over a o) ≡ left_over (a || b) o
  left_over_twice a b none = refl
  left_over_twice a b (some p) = ground arith

  -- Phase 2, whatever the state that it finds and the candidates that it was given: exactly the
  -- candidates that are idle by then are removed. One that has been used in the meantime stays.
  pub find-evict :
      (ips : List Bytes) (r : Shard × ℕ) (j : Bytes)
      → find j (evict float cutoff heap ips r).0 ≡ left_over (contains j ips) (find j r.0)
  unfolding evict
  find-evict [] (s, n) j = ground arith
  find-evict (ip ∷ ips) (s, n) j =
      find-evict ips (evict_one float cutoff heap ip (s, n)) j
      ∙ (rw (find-evict_one ip j s n) (left_over_twice (eqb ip j) (contains j ips) (find j s)))

  contains-to_evict :
      (s : Shard) (j : Bytes) {p : ℕ}
      → find j s ≡ some p
      → ltb_ℤ (heap p).last_seen_nano cutoff ≡ true
      → contains j (to_evict float cutoff heap s) ≡ true
  unfolding find to_evict
  contains-to_evict [] j h idle = cc
  contains-to_evict ((k, q) ∷ s) j {p} h idle =
      ground (arith, contains-to_evict s j {p = p}, eqb_iff k j)

  find-sweep :
      (s : Shard) (j : Bytes) → find j (sweep float cutoff heap s).0 ≡ left_over true (find j s)
  unfolding sweep
  find-sweep s j = find-evict (to_evict float cutoff heap s) (s, 0) j ∙ settle (find j s) refl
    where
      settle :
          (o : Option ℕ)
          → find j s ≡ o
          → left_over (contains j (to_evict float cutoff heap s)) o ≡ left_over true o
      settle none e = refl
      settle (some p) e = ground (arith, contains-to_evict s j e)

module _ (float : Float64) where
  -- With nobody between its phases runGC removes an address exactly if its bucket was last used
  -- before the cutoff, five minutes before now, and leaves all buckets as they are.
  pub lookup-run_gc :
      (l : Limiter float) (now : ℤ) (ip : Bytes)
      → (lookup float (run_gc float l now) ip
          ≡ left_over float (sub64 now bucket_idle_timeout) l.heap true (lookup float l ip))
        × ((run_gc float l now).heap ≡ l.heap)
  unfolding lookup run_gc
  lookup-run_gc l now ip =
      (find-sweep float (sub64 now bucket_idle_timeout) l.heap (l.shards (shard_for ip)) ip, refl)
