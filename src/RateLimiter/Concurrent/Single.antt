-- ===== src/RateLimiter/Concurrent/Single.antt =====
-- ratelimiter/token_bucket.go: getOrCreate looks the address up again under its lock, so that calls
-- that miss together end with one bucket.
use peakshield.Prelude.{ℕ, ◌≡◌, sym, ap, ◌∙◌, false, Option, none, some, arith}
use peakshield.Prelude.Int.{ℤ}
use peakshield.Prelude.Family.{put}
use peakshield.Prelude.Bytes.{Bytes}
use peakshield.Prelude.Float.{Float64}
use peakshield.RateLimiter.Bucket.{Rates}
use peakshield.RateLimiter.Limiter.{Limiter, lookup, get_or_create, consume_at}
use peakshield.RateLimiter.Limiter.Laws.{
  get_or_create_lem, lookup-consume_at, lookup-get_or_create_stays,
}
use peakshield.RateLimiter.Concurrent.{
  Pc, looking, creating, consuming, answered, System, init, looked, attempt, Reach, start, serve,
  sweep,
}
use peakshield.RateLimiter.Concurrent.Laws.{some_subst, step_inversion}

module _ (float : Float64) (ips : ℕ → Bytes) where
  -- A bucket that is held stands in the map, under the call's address.
  abbrev pub Current : Limiter float → (ℕ → Pc) → Type 0
  Current l pc = (k p : ℕ) → pc k ≡ consuming p → lookup float l (ips k) ≡ some p

  put-Current :
      (l : Limiter float) (pc : ℕ → Pc) (i : ℕ) (c : Pc)
      → Current l pc
      → ((p : ℕ) → c ≡ consuming p → lookup float l (ips i) ≡ some p)
      → Current l (put pc i c)
  put-Current l pc i c held mine k p e = ground (arith, held k p, mine p)

  looked_found : (o : Option ℕ) (p : ℕ) → looked float o ≡ consuming p → o ≡ some p
  looked_found none p e = absurd (ground (arith, e))
  looked_found (some q) p e = ground (arith, e)

  attempt-Current :
      (l : Limiter float) (pc : ℕ → Pc) (i : ℕ) (now : ℤ) (c : Pc) {o : Limiter float × Pc}
      → Current l pc
      → attempt float l (ips i) now c ≡ some o
      → Current o.0 (put pc i o.1)
  unfolding attempt
  attempt-Current l pc i now looking held h =
      some_subst (λ o. Current o.0 (put pc i o.1)) h
        (put-Current l pc i _ held (looked_found (lookup float l (ips i))))
  attempt-Current l pc i now creating held h =
      some_subst (λ o. Current o.0 (put pc i o.1)) h
        (put-Current ((get_or_create float l (ips i) now).0) pc i _
          (λ k p e. lookup-get_or_create_stays float l (ips i) (ips k) now (held k p e))
          (λ p e. (get_or_create_lem float l (ips i) (ips i) now).0 ∙ ground (arith, e)))
  attempt-Current l pc i now (consuming q) held h =
      some_subst (λ o. Current o.0 (put pc i o.1)) h
        (put-Current ((consume_at float l q now).0) pc i _
          (λ k p e. lookup-consume_at float l q now (ips k) ∙ held k p e)
          (λ p e. absurd (ground (arith, e))))
  attempt-Current l pc i now (answered a) held h = absurd (ground (arith, h))

  pub Reach-Current :
      {r : Rates float} {s : System float} → Reach float ips r false s → Current s.limiter s.pc
  unfolding init
  Reach-Current (start e) = rw e (λ k p h. absurd (ground (arith, h)))
  Reach-Current (serve {s} i now h reach) =
      let (o, moved, e) = step_inversion float ips i now s h in
      rw e (attempt-Current s.limiter s.pc i now (s.pc i) (Reach-Current reach) moved)
  Reach-Current (sweep shard cutoff candidates on e reach) = absurd (ground (arith, on))

  -- While the garbage collector is not running, all calls for one address take their tokens from one
  -- bucket, the one that the map holds, even where several of them found none and went to create it.
  pub one_bucket :
      {r : Rates float} {s : System float} (i k p q : ℕ)
      → Reach float ips r false s
      → s.pc i ≡ consuming p
      → s.pc k ≡ consuming q
      → ips i ≡ ips k
      → (p ≡ q) × (lookup float s.limiter (ips i) ≡ some p)
  one_bucket {s = s} i k p q reach at_i at_k same =
      let mine = Reach-Current reach i p at_i in
      let other = Reach-Current reach k q at_k in
      (some_inj (sym mine ∙ ap (lookup float s.limiter) same ∙ other), mine)
    where
      some_inj : {a b : ℕ} → some a ≡ some b → a ≡ b
      some_inj e = cc
