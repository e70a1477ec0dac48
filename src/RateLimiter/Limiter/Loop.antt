-- ===== src/RateLimiter/Limiter/Loop.antt =====
-- ratelimiter/token_bucket.go: gcLoop, among the calls of Allow.
use peakshield.Prelude.{
  ℕ, ◌≡◌, refl, sym, ap, ◌∙◌, subst, inl, inr, Bool, true, false, Option, none, some, List, [], ◌∷◌,
  ◌++◌, arith, if◌then◌else◌, Bool-cases,
}
use peakshield.Prelude.Int.{ℤ, ltb_ℤ, sub64}
use peakshield.Prelude.Bytes.{Bytes}
use peakshield.Prelude.Float.{Float64}
use peakshield.RateLimiter.Bucket.{Bucket}
use peakshield.RateLimiter.Limiter.{Limiter, lookup, allow, run_gc, bucket_idle_timeout}
use peakshield.RateLimiter.Limiter.Laws.{bucket_of, lookup-allow_stays}
use peakshield.RateLimiter.Limiter.Spec.{unless_idle}
use peakshield.RateLimiter.Limiter.Spec.Step.{run_gc_step}

-- What the select of gcLoop receives, and what the requests do in the meantime. The loop picks one
-- of two cases that are ready; the order of the list is its choice.
pub data Signal : Type 0 where
  ticked : (now : ℤ) → Signal  -- <-ticker.C, with the time that runGC reads
  cancelled : Signal  -- <-ctx.Done()
  called : (ip : Bytes) → (created now : ℤ) → Signal  -- Allow

module _ (float : Float64) where
  -- The limiter under a running loop, or under one that has returned.
  pub record Served : Type 0 where
    pub limiter : Limiter float
    pub looping : Bool

  unfoldable pub on_signal : Served → Signal → Served
  unfolding allow run_gc
  on_signal s (ticked now) =
      if s.looping then record s { limiter = run_gc float s.limiter now } else s
  on_signal s cancelled = record s { looping = false }
  on_signal s (called ip created now) = record s {
    limiter = (allow float s.limiter ip created now).0;
  }

  unfoldable pub gc_loop : Served → List Signal → Served
  unfolding on_signal
  gc_loop s [] = s
  gc_loop s (e ∷ es) = gc_loop (on_signal s e) es

  gc_loop-append :
      (s : Served) (es fs : List Signal) → gc_loop s (es ++ fs) ≡ gc_loop (gc_loop s es) fs
  unfolding gc_loop
  gc_loop-append s [] fs = refl
  gc_loop-append s (e ∷ es) fs = gc_loop-append (on_signal s e) es fs

  survivors :
      (cutoff : ℤ) (o : Option (Bucket float)) {b : Bucket float}
      → unless_idle float cutoff o ≡ some b
      → (ltb_ℤ b.last_seen_nano cutoff ≡ false) × (o ≡ some b)
  survivors cutoff none h = cc
  survivors cutoff (some b) h = elim (Bool-cases (ltb_ℤ b.last_seen_nano cutoff)) [
    | inl idle ↦ absurd (ground (arith, idle, h))
    | inr recent ↦ ground (arith, recent, h)
  ]

  -- When the ticker fires in a running loop, each bucket that is left was used in the five minutes
  -- before the time that runGC read, and is as it was.
  ticked_lem :
      (s : Served) (now : ℤ) (ip : Bytes) {b : Bucket float}
      → s.looping ≡ true
      → bucket_of float (on_signal s (ticked now)).limiter ip ≡ some b
      → (ltb_ℤ b.last_seen_nano (sub64 now bucket_idle_timeout) ≡ false)
        × (bucket_of float s.limiter ip ≡ some b)
  unfolding on_signal
  ticked_lem s now ip {b} running h =
      let left : bucket_of float (run_gc float s.limiter now) ip ≡ some b = rw running at h in
      survivors (sub64 now bucket_idle_timeout) (bucket_of float s.limiter ip)
        (sym (ap (λ m. m ip) (run_gc_step float s.limiter now)) ∙ left)

  ignored : (s : Served) (now : ℤ) → s.looping ≡ false → on_signal s (ticked now) ≡ s
  unfolding on_signal
  ignored s now stopped =
      ap (λ b. if b then record s { limiter = run_gc float s.limiter now } else s) stopped

  -- Once the context is cancelled, no address is forgotten any more.
  stopped_keeps :
      (s : Served) (es : List Signal) (ip : Bytes) {p : ℕ}
      → s.looping ≡ false
      → lookup float s.limiter ip ≡ some p
      → lookup float (gc_loop s es).limiter ip ≡ some p
  unfolding gc_loop on_signal
  stopped_keeps s [] ip stopped h = h
  stopped_keeps s (ticked now ∷ es) ip {p} stopped h =
      subst (λ t. lookup float (gc_loop t es).limiter ip ≡ some p) (sym (ignored s now stopped))
        (stopped_keeps s es ip stopped h)
  stopped_keeps s (cancelled ∷ es) ip stopped h =
      stopped_keeps (record s { looping = false }) es ip refl h
  stopped_keeps s (called i created now ∷ es) ip stopped h =
      stopped_keeps (record s { limiter = (allow float s.limiter i created now).0 }) es ip stopped
        (lookup-allow_stays float s.limiter i ip created now h)
