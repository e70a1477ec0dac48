-- ===== src/RateLimiter/Concurrent/Laws.antt =====
-- ratelimiter/token_bucket.go: what concurrent calls of Allow do to one another.
use peakshield.Prelude.{ℕ, ◌≡◌, ◌≢◌, refl, ◌∙◌, subst, Bool, some, arith, inl, inr, Option-cases}
use peakshield.Prelude.Int.{ℤ}
use peakshield.Prelude.Family.{put}
use peakshield.Prelude.Bytes.{Bytes}
use peakshield.Prelude.Float.{Float64}
use peakshield.RateLimiter.Bucket.{Rates}
use peakshield.RateLimiter.Bucket.Bounds.{Sound}
use peakshield.RateLimiter.Limiter.{Limiter, new, lookup, get_or_create, consume_at}
use peakshield.RateLimiter.Limiter.Laws.{
  bucket_of, bucket_of-agree, get_or_create_lem, rates-get_or_create, heap-get_or_create,
  heap-consume_at, lookup-consume_at, new-Inv,
}
use peakshield.RateLimiter.Concurrent.{
  Pc, looking, creating, consuming, answered, System, init, looked, attempt, step, collect, Reach,
  start, serve, sweep,
}
use peakshield.RateLimiter.Concurrent.Held.{
  Held, let_go-Held, take_up-Held, grow-Held, spend-Held, shrink-Held,
}

pub some_subst {ℓ κ} : {A : Type ℓ} (P : A → Type κ) {a b : A} → some a ≡ some b → P a → P b
some_subst P e = subst P (cc)

module _ (float : Float64) (ips : ℕ → Bytes) where
  -- A step is a part of a call, at the place where the call stands.
  pub step_inversion :
      (i : ℕ) (now : ℤ) (s : System float) {t : System float}
      → step float ips i now s ≡ some t
      → (o : Limiter float × Pc) × (attempt float s.limiter (ips i) now (s.pc i) ≡ some o)
        × (t ≡ record { limiter = o.0; pc = put s.pc i o.1 })
  unfolding step
  step_inversion i now s {t} h =
      elim (Option-cases (attempt float s.limiter (ips i) now (s.pc i))) [
        | inl stuck ↦ absurd (ground (arith, stuck))
        | inr (o, moved) ↦ (
          o,
          moved,
          some_subst (λ x. x ≡ record { limiter = o.0; pc = put s.pc i o.1 })
              (rw (moved, step) at h) refl,
        )
      ]

  looked-Held :
      (l : Limiter float) (pc : ℕ → Pc) (i : ℕ)
      → Held float ips l pc
      → Held float ips l (put pc i (looked float (lookup float l (ips i))))
  looked-Held l pc i held = elim (Option-cases (lookup float l (ips i))) [
    | inl missing ↦ rw missing (let_go-Held float ips l pc i creating (λ p. cc) held)
    | inr (p, found) ↦ rw found (take_up-Held float ips l pc i p found held)
  ]

  attempt-Held :
      (l : Limiter float) (pc : ℕ → Pc) (i : ℕ) (now : ℤ) (c : Pc) {o : Limiter float × Pc}
      → Sound float l.rates
      → Held float ips l pc
      → attempt float l (ips i) now c ≡ some o
      → Held float ips o.0 (put pc i o.1)
  unfolding attempt
  attempt-Held l pc i now looking sound held h =
      some_subst (λ o. Held float ips o.0 (put pc i o.1)) h (looked-Held l pc i held)
  attempt-Held l pc i now creating sound held h =
      some_subst (λ o. Held float ips o.0 (put pc i o.1)) h
        (take_up-Held float ips _ pc i _ (get_or_create_lem float l (ips i) (ips i) now).0
          (grow-Held float ips l pc (ips i) now sound held))
  attempt-Held l pc i now (consuming p) sound held h =
      some_subst (λ o. Held float ips o.0 (put pc i o.1)) h
        (let_go-Held float ips _ pc i (answered (consume_at float l p now).1) (λ q. cc)
          (spend-Held float ips l pc p now sound held))
  attempt-Held l pc i now (answered a) sound held h = absurd (ground (arith, h))

  attempt-rates :
      (l : Limiter float) (ip : Bytes) (now : ℤ) (c : Pc) {o : Limiter float × Pc}
      → attempt float l ip now c ≡ some o
      → o.0.rates ≡ l.rates
  unfolding attempt consume_at
  attempt-rates l ip now looking h = some_subst (λ o. o.0.rates ≡ l.rates) h refl
  attempt-rates l ip now creating h =
      some_subst (λ o. o.0.rates ≡ l.rates) h (rates-get_or_create float l ip now)
  attempt-rates l ip now (consuming p) h = some_subst (λ o. o.0.rates ≡ l.rates) h refl
  attempt-rates l ip now (answered a) h = absurd (ground (arith, h))

  module _ {r : Rates float} (sound : Sound float r) where
    pub Reach-Held :
        {gc : Bool} {s : System float}
        → Reach float ips r gc s
        → (s.limiter.rates ≡ r) × Held float ips s.limiter s.pc
    unfolding init new collect
    Reach-Held (start e) = rw e (
      refl,
      record {
        inv = new-Inv float r sound;
        alloc = λ i h. cc;
        own = λ i j h k. cc;
        apart = λ i k h m. cc;
      },
    )
    Reach-Held (serve {s} i now h reach) =
        let (o, moved, e) = step_inversion i now s h in
        let (same, held) = Reach-Held reach in
        rw e (
          attempt-rates s.limiter (ips i) now (s.pc i) moved ∙ same,
          attempt-Held s.limiter s.pc i now (s.pc i) (rw same sound) held moved,
        )
    Reach-Held (sweep {s} shard cutoff candidates on e reach) =
        let (same, held) = Reach-Held reach in
        rw e (same, shrink-Held float ips s.limiter s.pc shard cutoff candidates held)

  pub attempt_isolated :
      (l : Limiter float) (pc : ℕ → Pc) (i : ℕ) (now : ℤ) (j : Bytes) (c : Pc)
      {o : Limiter float × Pc}
      → Held float ips l pc
      → pc i ≡ c
      → ips i ≢ j
      → attempt float l (ips i) now c ≡ some o
      → bucket_of float o.0 j ≡ bucket_of float l j
  unfolding attempt
  attempt_isolated l pc i now j looking held at other h =
      some_subst (λ o. bucket_of float o.0 j ≡ bucket_of float l j) h refl
  attempt_isolated l pc i now j creating held at other h =
      some_subst (λ o. bucket_of float o.0 j ≡ bucket_of float l j) h
        (bucket_of-agree float l (get_or_create float l (ips i) now).0 j
          ((get_or_create_lem float l (ips i) j now).1 other)
          (λ q there. heap-get_or_create float l (ips i) now q (held.inv.allocated j there)))
  attempt_isolated l pc i now j (consuming p) held at other h =
      some_subst (λ o. bucket_of float o.0 j ≡ bucket_of float l j) h
        (bucket_of-agree float l (consume_at float l p now).0 j (lookup-consume_at float l p now j)
          (λ q there.
            heap-consume_at float l p q now
              (λ e. other (held.own i j at (subst (λ x. lookup float l j ≡ some x) e there)))))
  attempt_isolated l pc i now j (answered a) held at other h = absurd (ground (arith, h))

  -- For a rate and a burst size that are not negative: in any interleaving of calls with one
  -- another and with the garbage collector, the next part of a call for one address leaves the
  -- bucket that the map holds for any other address as it is.
  pub concurrent_isolated :
      {r : Rates float} {gc : Bool} {s t : System float} (i : ℕ) (now : ℤ) (j : Bytes)
      → Sound float r
      → Reach float ips r gc s
      → step float ips i now s ≡ some t
      → ips i ≢ j
      → bucket_of float t.limiter j ≡ bucket_of float s.limiter j
  concurrent_isolated {s = s} i now j sound reach h other =
      let (o, moved, e) = step_inversion i now s h in
      let (_, held) = Reach-Held sound reach in
      rw e (attempt_isolated s.limiter s.pc i now j (s.pc i) held refl other moved)
