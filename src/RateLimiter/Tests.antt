-- ===== src/RateLimiter/Tests.antt =====
-- ratelimiter/token_bucket.go: runs over the concrete numbers of Fixed, and the properties there.
use peakshield.Prelude.{◌≡◌, refl, true, false, List, [], ◌∷◌, none, arith}
use peakshield.Prelude.Int.{pos, sub64}
use peakshield.Prelude.Bytes.{Bytes, bytes}
use peakshield.Prelude.Fixed.{fixed, nan, units}
use peakshield.RateLimiter.Bucket.{Bucket, Rates, rates, full_bucket, consume}
use peakshield.RateLimiter.Bucket.Bounds.{Sound, InBounds, consume-InBounds}
use peakshield.RateLimiter.Bucket.Burst.{answers, burst_exact}
use peakshield.RateLimiter.Bucket.Eviction.{nan_rate_refuses}
use peakshield.RateLimiter.Hash.{shard_for, fnv32a}
use peakshield.RateLimiter.Limiter.{Limiter, new, lookup, allow, run_gc, bucket_idle_timeout}
use peakshield.RateLimiter.Limiter.Gc.{left_over, lookup-run_gc}
use peakshield.RateLimiter.Limiter.Laws.{Inv, bucket_of, new-Inv, allow-Inv}
use peakshield.RateLimiter.Limiter.Spec.{Event, request, collect, run, replay}
use peakshield.RateLimiter.Limiter.Spec.Unseen.{eviction_unseen}
use peakshield.RateLimiter.Limiter.Spec.Refine.{limiter_refines}

-- One token in two seconds, and three at once.
abbrev slow : Rates fixed
slow = record { rate_per_nano = units 0; burst_size = units 3_000_000_000 }

-- A hundred tokens in a second, and two at once.
abbrev quick : Rates fixed
quick = record { rate_per_nano = units 100; burst_size = units 2_000_000_000 }

-- Empty since second 1.
abbrev empty : Bucket fixed
empty = record {
  tokens = units 0;
  last_refill_nano = pos 1_000_000_000;
  last_seen_nano = pos 1_000_000_000;
}

-- FNV-1a of "a", as published.
fnv_a : fnv32a 2166136261 (bytes "a") ≡ 0xe40c292c
unfolding fnv32a
fnv_a = refl

-- Ten milliseconds at a hundred a second make one token.
one_token : consume fixed quick (pos 1_010_000_000) empty ≡ (
  record empty { last_refill_nano = pos 1_010_000_000; last_seen_nano = pos 1_010_000_000 },
  true,
)
unfolding consume sub64
one_token = refl

burst_exact_example :
    answers fixed
      (rates fixed (units 100_000_000_000) (pos 2))
      (pos 7 ∷ pos 7 ∷ pos 7 ∷ [])
      (full_bucket fixed (rates fixed (units 100_000_000_000) (pos 2)) (pos 7))
    ≡ true ∷ true ∷ false ∷ []
unfolding sub64
burst_exact_example =
    burst_exact fixed (units 100_000_000_000) 2 (pos 7) (pos 7 ∷ pos 7 ∷ pos 7 ∷ []) (omega arith)
      (refl, (refl, (refl, tt)))

nan_rate_refuses_example :
    answers fixed
      (rates fixed nan (pos 2))
      (pos 2_000_000_000 ∷ pos 3_000_000_000 ∷ [])
      (record empty { tokens = units 2_000_000_000 })
    ≡ false ∷ false ∷ []
unfolding sub64
nan_rate_refuses_example =
    nan_rate_refuses fixed nan (pos 2) (pos 2_000_000_000) (pos 3_000_000_000 ∷ [])
      (record empty { tokens = units 2_000_000_000 }) refl refl

abbrev home : Bytes
home = bytes "127.0.0.1"

abbrev guest : Bytes
guest = bytes "203.0.113.42"

abbrev started : Limiter fixed
started = new fixed quick

quick-Sound : Sound fixed quick
quick-Sound = (refl, refl)

-- A limiter that has seen one request.
abbrev used : Limiter fixed
used = (allow fixed started home (pos 5) (pos 5)).0

lookup-run_gc_example :
    (lookup fixed (run_gc fixed used (pos 400_000_000_000)) home
      ≡ left_over fixed
          (sub64 (pos 400_000_000_000) bucket_idle_timeout)
          used.heap
          true
          (lookup fixed used home))
    × ((run_gc fixed used (pos 400_000_000_000)).heap ≡ used.heap)
lookup-run_gc_example = lookup-run_gc fixed used (pos 400_000_000_000) home

-- After 400 seconds the idle address is gone.
swept : lookup fixed (run_gc fixed used (pos 400_000_000_000)) home ≡ none
unfolding new allow run_gc sub64 shard_for
swept = refl

-- What the request has left.
abbrev one_left : Bucket fixed
one_left = record { tokens = units 1_000_000_000; last_refill_nano = pos 5; last_seen_nano = pos 5 }

used-Inv : Inv fixed used
unfolding new
used-Inv =
    allow-Inv fixed started home (pos 5) (pos 5) quick-Sound (new-Inv fixed quick quick-Sound)

-- The collector runs after 400 seconds, and the next call comes a second later.
eviction_unseen_example :
    (bucket_of fixed
        (allow fixed
          (run_gc fixed used (pos 400_000_000_000))
          home
          (pos 401_000_000_000)
          (pos 401_000_000_000)).0
        home
      ≡ bucket_of fixed (allow fixed used home (pos 401_000_000_000) (pos 401_000_000_000)).0 home)
    × ((allow fixed
          (run_gc fixed used (pos 400_000_000_000))
          home
          (pos 401_000_000_000)
          (pos 401_000_000_000)).1
        ≡ (allow fixed used home (pos 401_000_000_000) (pos 401_000_000_000)).1)
unfolding new allow sub64 shard_for
eviction_unseen_example =
    eviction_unseen fixed used home (pos 400_000_000_000) (pos 401_000_000_000) one_left used-Inv
      quick-Sound refl refl refl refl

-- A client spends its two tokens, another one has its own; after the collector has run the first
-- starts again with a full bucket.
abbrev history : List Event
history =
    request home (pos 5) (pos 5)
    ∷ request home (pos 6) (pos 6)
    ∷ request home (pos 6) (pos 6)
    ∷ request guest (pos 7) (pos 8)
    ∷ collect (pos 400_000_000_000)
    ∷ request home (pos 400_000_000_001) (pos 400_000_000_001)
    ∷ []

limiter_refines_example :
    (bucket_of fixed (run fixed (new fixed quick) history).0
      ≡ (replay fixed quick (λ ip. none) history).0)
    × ((run fixed (new fixed quick) history).1 ≡ (replay fixed quick (λ ip. none) history).1)
limiter_refines_example = limiter_refines fixed quick history quick-Sound

history_answers : (run fixed (new fixed quick) history).1 ≡ true ∷ true ∷ false ∷ true ∷ true ∷ []
unfolding new run allow run_gc sub64 shard_for
history_answers = refl

consume-InBounds_example : InBounds fixed quick (consume fixed quick (pos 1_010_000_000) empty).0
consume-InBounds_example =
    consume-InBounds fixed quick (pos 1_010_000_000) empty quick-Sound (refl, refl)
