-- ===== src/RateLimiter/Concurrent/Linear.antt =====
-- ratelimiter/token_bucket.go: calls of Allow that race come to what they would come to one after the
-- other. A call takes effect where it holds the bucket's lock in consume.
pub mod Behind
pub mod Calls
pub mod Laws
use peakshield.Prelude.{
  ◌+◌, ℕ, ◌≡◌, refl, sym, ap, subst, ◌∙◌, Bool, true, false, Option, none, some, List, [], ◌∷◌,
  ◌++◌, append-nil, arith, inl, inr, Bool-cases, ◌==◌, if◌then◌else◌,
}
use peakshield.Prelude.Int.{ℤ}
use peakshield.Prelude.Family.{put}
use peakshield.Prelude.Bytes.{Bytes, eqb, eqb_iff}
use peakshield.Prelude.Float.{Float64}
use peakshield.RateLimiter.Bucket.{Bucket, Rates, full_bucket, consume}
use peakshield.RateLimiter.Bucket.Bounds.{Sound}
use peakshield.RateLimiter.Limiter.{Limiter, new, lookup, find, get_or_create, consume_at}
use peakshield.RateLimiter.Limiter.Laws.{Inv, bucket_of}
use peakshield.RateLimiter.Limiter.Spec.{Clients, bucket_for, update, spec_allow}
use peakshield.RateLimiter.Limiter.Spec.Step.{
  bucket_of-some, bucket_of-consume_at, bucket_of-get_or_create,
}
use peakshield.RateLimiter.Concurrent.{
  Pc, looking, creating, consuming, answered, System, init, looked, attempt, step, Reach, start,
  serve, sweep,
}
use peakshield.RateLimiter.Concurrent.Held.{Held}
use peakshield.RateLimiter.Concurrent.Laws.{some_subst, step_inversion, Reach-Held}
use peakshield.RateLimiter.Concurrent.Single.{Reach-Current}

-- A call that has taken effect, with the time at which its address's bucket would be filled if there
-- were none, and the time that consume read.
pub record Entry : Type 0 where
  pub call : ℕ
  pub created : ℤ
  pub now : ℤ

abbrev pub answer_of : Pc → Option Bool
answer_of (answered a) = some a
answer_of _ = none

-- 1 for a call that has returned
abbrev pub returned : Pc → ℕ
returned (answered a) = 1
returned _ = 0

-- how often the call `i` stands in the log
abbrev pub times : ℕ → List Entry → ℕ
times i [] = 0
times i (e ∷ es) = (if e.call == i then 1 else 0) + times i es

times-snoc :
    (i : ℕ) (es : List Entry) (e : Entry)
    → times i (es ++ e ∷ []) ≡ times i es + (if e.call == i then 1 else 0)
times-snoc i [] e = omega arith
times-snoc i (d ∷ es) e = omega (arith, times-snoc i es e)

abbrev or_first : Option Bool → Option Bool → Option Bool
or_first none b = b
or_first (some a) b = some a

or_first_assoc : (a b c : Option Bool) → or_first a (or_first b c) ≡ or_first (or_first a b) c
or_first_assoc none b c = refl
or_first_assoc (some a) b c = refl

module _ (float : Float64) (ips : ℕ → Bytes) (r : Rates float) where
  -- One call of the plain table.
  abbrev called : Clients float → Entry → Clients float × Bool
  called m e = spec_allow float r m (ips e.call) e.created e.now

  -- The table after the calls, one after the other.
  abbrev pub table_after : Clients float → List Entry → Clients float
  table_after m [] = m
  table_after m (e ∷ es) = table_after (called m e).0 es

  -- What the table answers to the call `i`, if it is one of them.
  abbrev pub answer_in : Clients float → List Entry → ℕ → Option Bool
  answer_in m [] i = none
  answer_in m (e ∷ es) i =
      or_first (if e.call == i then some (called m e).1 else none) (answer_in (called m e).0 es i)

  -- What a part of a call adds to the log.
  abbrev entries : Limiter float → ℕ → ℤ → Pc → List Entry
  entries l i now (consuming p) =
      record { call = i; created = (l.heap p).last_refill_nano; now = now } ∷ []
  entries l i now _ = []

  -- The calls that have taken effect, in the order in which they did.
  unfoldable pub log : {s : System float} → Reach float ips r false s → List Entry
  log (start e) = []
  log (serve {s} i now h reach) = log reach ++ entries s.limiter i now (s.pc i)
  log (sweep shard cutoff candidates on e reach) = log reach

  table_after-snoc :
      (m : Clients float) (es : List Entry) (e : Entry)
      → table_after m (es ++ e ∷ []) ≡ (called (table_after m es) e).0
  table_after-snoc m [] e = refl
  table_after-snoc m (d ∷ es) e = table_after-snoc (called m d).0 es e

  answer_in-snoc :
      (m : Clients float) (es : List Entry) (e : Entry) (i : ℕ)
      → answer_in m (es ++ e ∷ []) i
        ≡ or_first
            (answer_in m es i)
            (if e.call == i then some (called (table_after m es) e).1 else none)
  answer_in-snoc m [] e i = ground arith
  answer_in-snoc m (d ∷ es) e i =
      ap (or_first (if d.call == i then some (called m d).1 else none))
        (answer_in-snoc (called m d).0 es e i)
      ∙ or_first_assoc (if d.call == i then some (called m d).1 else none)
          (answer_in (called m d).0 es i) _
