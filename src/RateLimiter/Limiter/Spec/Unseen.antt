-- ===== src/RateLimiter/Limiter/Spec/Unseen.antt =====
-- ratelimiter/token_bucket.go: when an address cannot tell whether runGC has removed its bucket.
use peakshield.RateLimiter.Limiter.Spec.{bucket_for, unless_idle}
use peakshield.RateLimiter.Limiter.Spec.Step.{allow_step, run_gc_step, run_gc-Inv, rates-run_gc}
use peakshield.RateLimiter.Limiter.Laws.{Inv, bucket_of}
use peakshield.Prelude.{◌≡◌, refl, sym, ap, subst, ◌∙◌, Bool, true, some, inl, inr, Bool-cases}
use peakshield.Prelude.Int.{ℤ, pos, ltb_ℤ, sub64}
use peakshield.Prelude.Bytes.{Bytes, eqb, eqb_iff}
use peakshield.Prelude.Float.{Float64}
use peakshield.RateLimiter.Bucket.{Bucket, Rates, consume}
use peakshield.RateLimiter.Bucket.Bounds.{Sound}
use peakshield.RateLimiter.Bucket.Eviction.{refilled, full_again}
use peakshield.RateLimiter.Limiter.{Limiter, allow, run_gc, bucket_idle_timeout}

module _ (float : Float64) where
  open float use {of_int, le}

  -- The bucket that a call at `now` takes its token from, if the collector came before.
  collected :
      (r : Rates float) (cutoff now : ℤ) (b : Bucket float)
      → le (of_int (pos 1)) r.burst_size ≡ true
      → ltb_ℤ (pos 0) (sub64 now b.last_refill_nano) ≡ true
      → le r.burst_size (refilled float r now b) ≡ true
      → consume float r now (bucket_for float r (unless_idle float cutoff (some b)) now)
        ≡ consume float r now b
  collected r cutoff now b room later full = elim (Bool-cases (ltb_ℤ b.last_seen_nano cutoff)) [
    | inl idle ↦ rw idle (full_again float r now b room later full)
    | inr busy ↦ rw busy refl
  ]

  -- A call at `now` gives the address the bucket and the answer that consume comes to.
  served :
      (l : Limiter float) (ip : Bytes) (now : ℤ) {x : Bucket float × Bool}
      → Inv float l
      → Sound float l.rates
      → consume float l.rates now (bucket_for float l.rates (bucket_of float l ip) now) ≡ x
      → (bucket_of float (allow float l ip now now).0 ip ≡ some x.0)
        × ((allow float l ip now now).1 ≡ x.1)
  served l ip now inv sound same =
      let (table, answer, _) = allow_step float l ip now now inv sound in
      let here : eqb ip ip ≡ true = (eqb_iff ip ip).1 refl in
      (ap (λ m. m ip) table ∙ rw here (ap (λ y. some y.0) same), answer ∙ ap (λ y. y.1) same)

  -- runGC goes unseen by an address whose bucket has filled up again. For a limiter whose invariant
  -- holds, with a rate that is not negative and a burst size of at least one: whenever the collector
  -- runs, and whether or not it removes the bucket, the address's next call of Allow gets the same
  -- answer as if the collector had not run, and leaves the same bucket to the address, if by the
  -- time `now` of the call, later than the last refill, the refill brings the bucket to the burst
  -- size or above it. The call reads the same time off the clock for a new bucket as for the token.
  pub eviction_unseen :
      (l : Limiter float) (ip : Bytes) (collection now : ℤ) (b : Bucket float)
      → Inv float l
      → Sound float l.rates
      → le (of_int (pos 1)) l.rates.burst_size ≡ true
      → bucket_of float l ip ≡ some b
      → ltb_ℤ (pos 0) (sub64 now b.last_refill_nano) ≡ true
      → le l.rates.burst_size (refilled float l.rates now b) ≡ true
      → (bucket_of float (allow float (run_gc float l collection) ip now now).0 ip
          ≡ bucket_of float (allow float l ip now now).0 ip)
        × ((allow float (run_gc float l collection) ip now now).1 ≡ (allow float l ip now now).1)
  eviction_unseen l ip collection now b inv sound room there later full =
      let g = run_gc float l collection in
      let rates = rates-run_gc float l collection in
      let cutoff = sub64 collection bucket_idle_timeout in
      let gone : bucket_of float g ip ≡ unless_idle float cutoff (some b) =
        ap (λ m. m ip) (run_gc_step float l collection) ∙ ap (unless_idle float cutoff) there in
      let (table, answer) =
        served l ip now inv sound
          (ap (λ o. consume float l.rates now (bucket_for float l.rates o now)) there) in
      let (table', answer') =
        served g ip now (run_gc-Inv float l collection inv) (subst (Sound float) (sym rates) sound)
          (ap (λ r. consume float r now (bucket_for float r (bucket_of float g ip) now)) rates
            ∙ ap (λ o. consume float l.rates now (bucket_for float l.rates o now)) gone
            ∙ collected l.rates cutoff now b room later full) in
      (table' ∙ sym table, answer' ∙ sym answer)
