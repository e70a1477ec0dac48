-- ===== src/RateLimiter/Concurrent/Tests.antt =====
-- ratelimiter/token_bucket.go: interleaved calls that are run, and the properties there.
use peakshield.Prelude.{
  false, ℕ, ◌<◌, ◌≤◌, arith, zero, suc, Bool, inl, inr, Option-cases, ◌≡◌, refl, true, [], ◌∷◌,
  none, some,
}
use peakshield.Prelude.Int.{ℤ, pos, sub64}
use peakshield.Prelude.Bytes.{Bytes, bytes}
use peakshield.Prelude.Fixed.{fixed, units}
use peakshield.RateLimiter.Hash.{shard_for}
use peakshield.RateLimiter.Bucket.{Rates}
use peakshield.RateLimiter.Limiter.{new, lookup}
use peakshield.RateLimiter.Limiter.Laws.{bucket_of}
use peakshield.RateLimiter.Concurrent.{
  consuming, answered, System, init, step, collect, Reach, start, serve,
}
use peakshield.RateLimiter.Concurrent.Laws.{concurrent_isolated}
use peakshield.RateLimiter.Concurrent.Single.{one_bucket}
use peakshield.RateLimiter.Concurrent.Budget.{granted}
use peakshield.RateLimiter.Concurrent.Linear.{answer_of, returned, times, answer_in, log}
use peakshield.RateLimiter.Concurrent.Linear.Laws.{empty, linearizable}
use peakshield.RateLimiter.Concurrent.Instant.{AtOnce, begin, next, instant_bounded}

-- One token in a hundred seconds, and one at once.
abbrev slow : Rates fixed
slow = record { rate_per_nano = units 0; burst_size = units 1_000_000_000 }

-- The first two calls are for one address, all others for another one.
abbrev ips : ℕ → Bytes
ips zero = bytes "10.0.0.7"
ips (suc zero) = bytes "10.0.0.7"
ips (suc (suc i)) = bytes "203.0.113.42"

-- Call `i` goes on at time `now`, if it can.
abbrev turn : ℕ → ℤ → System fixed → System fixed
turn i now s = elim (step fixed ips i now s) [ none ↦ s | some t ↦ t ]

turn-Reach :
    {gc : Bool} (i : ℕ) (now : ℤ) (s : System fixed)
    → Reach fixed ips slow gc s
    → Reach fixed ips slow gc (turn i now s)
turn-Reach i now s r = elim (Option-cases (step fixed ips i now s)) [
  | inl stuck ↦ rw (stuck, turn) r
  | inr (t, e) ↦ rw (e, turn) (serve i now e r)
]

-- Both calls miss, and both go on to create the bucket.
abbrev race : System fixed
race = turn 1 (pos 5) (turn 0 (pos 5) (turn 1 (pos 5) (turn 0 (pos 5) (init fixed slow))))

race_pc : race.pc 1 ≡ consuming 0
unfolding init new step shard_for
race_pc = refl

-- Call 0 holds a bucket that has been idle for long; it is collected, and call 1 gets a full one: both
-- are allowed, though the rate gives no second token.
abbrev collected : System fixed
collected =
    let s = turn 0 (pos 5) (turn 0 (pos 5) (init fixed slow)) in
    turn 1 (pos 500_000_000_000) (
      turn 1 (pos 500_000_000_000) (
        turn 1 (pos 500_000_000_000) (
          turn 0 (pos 500_000_000_000) (record s {
            limiter =
                collect fixed (shard_for (ips 0)) (pos 200_000_000_000) (ips 0 ∷ []) s.limiter;
          }))))

both_allowed : (collected.pc 0 ≡ answered true) × (collected.pc 1 ≡ answered true)
unfolding init new step collect shard_for sub64
both_allowed = (refl, refl)

start-Reach : {gc : Bool} → Reach fixed ips slow gc (init fixed slow)
start-Reach = start refl

race-Reach : {gc : Bool} → Reach fixed ips slow gc race
race-Reach =
    turn-Reach 1 (pos 5) _
      (turn-Reach 0 (pos 5) _ (turn-Reach 1 (pos 5) _ (turn-Reach 0 (pos 5) _ start-Reach)))

one_bucket_example : (◌≡◌ {A = ℕ} 0 0) × (lookup fixed race.limiter (bytes "10.0.0.7") ≡ some 0)
unfolding init new step shard_for
one_bucket_example = one_bucket fixed ips 0 1 0 0 race-Reach refl refl refl

concurrent_isolated_example :
    bucket_of fixed (turn 0 (pos 6) race).limiter (bytes "203.0.113.42")
    ≡ bucket_of fixed race.limiter (bytes "203.0.113.42")
unfolding init new step
concurrent_isolated_example =
    concurrent_isolated fixed ips {gc = true} 0 (pos 6) (bytes "203.0.113.42") (refl, refl)
      race-Reach refl (λ e. cc)

turn-AtOnce :
    (i : ℕ) (s : System fixed)
    → i < 2
    → AtOnce fixed ips slow (pos 5) 2 s
    → AtOnce fixed ips slow (pos 5) 2 (turn i (pos 5) s)
turn-AtOnce i s lt r = elim (Option-cases (step fixed ips i (pos 5) s)) [
  | inl stuck ↦ rw (stuck, turn) r
  | inr (t, e) ↦ rw (e, turn) (next i lt e r)
]

-- Both calls come to their end: one token for two.
abbrev raced : System fixed
raced = turn 0 (pos 5) (turn 1 (pos 5) race)

one_allowed : granted ips (bytes "10.0.0.7") 2 raced.pc ≡ 1
unfolding init new step shard_for sub64
one_allowed = refl

instant_bounded_example : granted ips (bytes "10.0.0.7") 2 raced.pc ≤ 1
instant_bounded_example =
    instant_bounded fixed ips slow (pos 5) 1 (omega arith) refl (refl, refl) (bytes "10.0.0.7")
      (turn-AtOnce 0 _ (omega arith) (
        turn-AtOnce 1 _ (omega arith) (
          turn-AtOnce 1 _ (omega arith) (
            turn-AtOnce 0 _ (omega arith)
              (turn-AtOnce 1 _ (omega arith) (turn-AtOnce 0 _ (omega arith) (begin refl)))))))

raced-Reach : Reach fixed ips slow false raced
raced-Reach = turn-Reach 0 (pos 5) _ (turn-Reach 1 (pos 5) _ race-Reach)

linearizable_example :
    (answer_of (raced.pc 0)
      ≡ answer_in fixed ips slow (empty fixed ips slow) (log fixed ips slow raced-Reach) 0)
    × (times 0 (log fixed ips slow raced-Reach) ≡ returned (raced.pc 0))
linearizable_example = linearizable fixed ips slow 0 (refl, refl) raced-Reach

-- Call 1 took effect first, and got the token.
raced_answers : (answer_of (raced.pc 0) ≡ some false) × (answer_of (raced.pc 1) ≡ some true)
unfolding init new step shard_for sub64
raced_answers = (refl, refl)
