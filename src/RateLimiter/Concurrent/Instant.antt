-- ===== src/RateLimiter/Concurrent/Instant.antt =====
-- ratelimiter/token_bucket.go: calls that race at one instant share the burst of their address.
use peakshield.Prelude.{
  ℕ, zero, suc, ◌+◌, ◌^◌, ◌<◌, ◌≤◌, ◌≡◌, refl, sym, subst, ◌∙◌, ap, false, some, arith, inl, inr,
  Bool-cases,
}
use peakshield.Prelude.Int.{ℤ, pos}
use peakshield.Prelude.Bytes.{Bytes, eqb, eqb_iff}
use peakshield.Prelude.Float.{Float64}
use peakshield.RateLimiter.Bucket.{Rates}
use peakshield.RateLimiter.Bucket.Bounds.{Sound}
use peakshield.RateLimiter.Limiter.{new, find, lookup}
use peakshield.RateLimiter.Limiter.Laws.{bucket_of}
use peakshield.RateLimiter.Concurrent.{System, init, step, Reach, start, serve}
use peakshield.RateLimiter.Concurrent.Laws.{step_inversion, attempt_isolated, Reach-Held}
use peakshield.RateLimiter.Concurrent.Single.{Reach-Current}
use peakshield.RateLimiter.Concurrent.Budget.{
  granted, granted-put, Backed, Backed-none, Backed-le, attempt-weight, attempt-Covers,
  allowed_weight,
}

module _ (float : Float64) (ips : ℕ → Bytes) (r : Rates float) (now : ℤ) where
  -- The states that the first `m` calls can reach at one instant, while nothing is collected.
  pub data AtOnce (m : ℕ) : System float → Type 0 where
    begin : {s : System float} → s ≡ init float r → AtOnce m s
    next :
        {s t : System float} (i : ℕ)
        → i < m
        → step float ips i now s ≡ some t
        → AtOnce m s
        → AtOnce m t

  AtOnce-Reach : {m : ℕ} {s : System float} → AtOnce m s → Reach float ips r false s
  AtOnce-Reach (begin e) = start e
  AtOnce-Reach (next i lt h before) = serve i now h (AtOnce-Reach before)

  granted-init : (j : Bytes) (m : ℕ) → granted ips j m (init float r).pc ≡ 0
  unfolding init
  granted-init j zero = refl
  granted-init j (suc m) = ground (arith, granted-init j m)

  module _ (n : ℕ) (small : n < 2 ^ 53) (burst : r.burst_size ≡ Float64.of_int float (pos n))
      (sound : Sound float r) (j : Bytes) where
    next-Backed :
        (m i : ℕ) (s : System float) {t : System float}
        → i < m
        → step float ips i now s ≡ some t
        → AtOnce m s
        → Backed float now n (bucket_of float s.limiter j) (granted ips j m s.pc)
        → Backed float now n (bucket_of float t.limiter j) (granted ips j m t.pc)
    next-Backed m i s lt h before backed =
        let (o, moved, e) = step_inversion float ips i now s h in
        let (rates, held) = Reach-Held float ips sound (AtOnce-Reach before) in
        let unspent = attempt-weight float now s.limiter (ips i) (s.pc i) moved in
        let counted = granted-put ips j m s.pc i o.1 lt in
        let spent = granted ips j m s.pc in
        rw e (elim (Bool-cases (eqb (ips i) j)) [
          | inl mine ↦
              let same : ips i ≡ j = (eqb_iff (ips i) j).0 mine in
              let covers =
                attempt-Covers float now n small s.limiter (ap (λ x. x.burst_size) rates ∙ burst)
                  (ips i) spent (s.pc i) (Reach-Current float ips (AtOnce-Reach before) i)
                  (subst (λ a. Backed float now n (bucket_of float s.limiter a) spent) (sym same)
                    backed)
                  moved in
              let counted' = rw mine at counted in
              subst (Backed float now n (bucket_of float o.0 j)) (omega (arith, counted', unspent))
                (subst
                  (λ a. Backed float now n (bucket_of float o.0 a) (spent + allowed_weight o.1))
                  same covers)
          | inr other ↦
              let counted' = rw other at counted in
              let isolated =
                attempt_isolated float ips s.limiter s.pc i now j (s.pc i) held refl
                  (λ eq. absurd (ground (arith, other, eqb_iff (ips i) j, eq))) moved in
              subst (Backed float now n (bucket_of float o.0 j)) (omega (arith, counted'))
                (subst (λ b. Backed float now n b spent) (sym isolated) backed)
        ])

    AtOnce-Backed :
        {m : ℕ} {s : System float}
        → AtOnce m s
        → Backed float now n (bucket_of float s.limiter j) (granted ips j m s.pc)
    unfolding init new lookup find
    AtOnce-Backed {m} (begin e) = rw (e, granted-init j m) (Backed-none float now n)
    AtOnce-Backed {m} (next {s} i lt h before) =
        next-Backed m i s lt h before (AtOnce-Backed before)

    -- For a rate that is not negative and a burst size that is a whole number below 2^53: however
    -- many calls race at one instant, and in whatever order their parts come, no more of them are
    -- allowed for one address than its burst size, while the garbage collector is not running.
    pub instant_bounded : {m : ℕ} {s : System float} → AtOnce m s → granted ips j m s.pc ≤ n
    instant_bounded {m} {s} before =
        Backed-le float now n (bucket_of float s.limiter j) (granted ips j m s.pc)
          (AtOnce-Backed before)
