-- ===== src/RateLimiter/Concurrent/Budget.antt =====
-- ratelimiter/token_bucket.go: how many calls for one address are allowed, however they race.
use mathlib.Core.Option
use peakshield.Prelude.{
  ℕ, zero, suc, ◌+◌, ◌^◌, ◌<◌, ◌≤◌, ◌≡◌, refl, sym, subst, ◌∙◌, ap, ◌==◌, Option, none, some,
  if◌then◌else◌, arith, inl, inr, Bool-cases, Option-cases,
}
use peakshield.Prelude.Int.{ℤ, pos, sub64_self}
use peakshield.Prelude.Family.{put}
use peakshield.Prelude.Bytes.{Bytes, eqb, eqb_refl}
use peakshield.Prelude.Float.{Float64}
use peakshield.RateLimiter.Bucket.{Bucket, Rates, full_bucket, consume}
use peakshield.RateLimiter.Bucket.Burst.{consume_frozen, take_token_some, take_token_none}
use peakshield.RateLimiter.Limiter.{Limiter, lookup, insert, get_or_create, consume_at}
use peakshield.RateLimiter.Limiter.Laws.{
  bucket_of, get_or_create_found, get_or_create_missing, lookup-consume_at, lookup-insert,
}
use peakshield.RateLimiter.Concurrent.{Pc, looking, creating, consuming, answered, looked, attempt}
use peakshield.RateLimiter.Concurrent.Laws.{some_subst}

-- 1 for a call that was allowed
abbrev pub allowed_weight : Pc → ℕ
allowed_weight looking = 0
allowed_weight creating = 0
allowed_weight (consuming p) = 0
allowed_weight (answered a) = if a then 1 else 0

module _ (ips : ℕ → Bytes) (j : Bytes) where
  abbrev pub weight : ℕ → Pc → ℕ
  weight i c = if eqb (ips i) j then allowed_weight c else 0

  -- How many of the first `m` calls were for the address `j`, and allowed.
  abbrev pub granted : ℕ → (ℕ → Pc) → ℕ
  granted zero pc = 0
  granted (suc m) pc = granted m pc + weight m (pc m)

  granted-put_above :
      (m : ℕ) (pc : ℕ → Pc) (i : ℕ) (c : Pc) → m ≤ i → granted m (put pc i c) ≡ granted m pc
  granted-put_above zero pc i c h = refl
  granted-put_above (suc m) pc i c h = ground (arith, granted-put_above m pc i c)

  pub granted-put :
      (m : ℕ) (pc : ℕ → Pc) (i : ℕ) (c : Pc)
      → i < m
      → granted m (put pc i c) + weight i (pc i) ≡ granted m pc + weight i c
  granted-put zero pc i c h = absurd (omega arith)
  granted-put (suc m) pc i c h = elim (Bool-cases (m == i)) [
    | inl same ↦
        let e : m ≡ i = ground (arith, same) in
        rw same (
          omega (
            arith,
            granted-put_above m pc i c (omega (arith, e)),
            ap (λ k. weight k c) e,
            ap (λ k. weight k (pc k)) e,
          ))
    | inr other ↦
        let below : i < m = ground (arith, other, h) in
        rw other (omega (arith, granted-put m pc i c below))
  ]

module _ (float : Float64) (now : ℤ) (n : ℕ) where
  -- The bucket of an address, when `spent` of its `n` tokens are taken. No time has passed.
  pub Backed : Option (Bucket float) → ℕ → Type 0
  Backed none spent = spent ≡ 0
  Backed (some b) spent =
      (left : ℕ) × (b.tokens ≡ Float64.of_int float (pos left))
      × (left + spent ≡ n)
      × (b.last_refill_nano ≡ now)

  pub Backed-none : Backed none 0
  unfolding Backed
  Backed-none = refl

  pub Backed-le : (o : Option (Bucket float)) (spent : ℕ) → Backed o spent → spent ≤ n
  unfolding Backed
  Backed-le none spent e = omega (arith, e)
  Backed-le (some b) spent (left, _, sum, _) = omega (arith, sum)

module _ (float : Float64) (r : Rates float) (now : ℤ) (n : ℕ) (small : n < 2 ^ 53)
    (burst : r.burst_size ≡ Float64.of_int float (pos n)) where
  full-Backed : Backed float now n (some (full_bucket float r now)) 0
  unfolding Backed full_bucket
  full-Backed = (n, burst, omega arith, refl)

  consume-Backed :
      (b : Bucket float) (spent : ℕ)
      → Backed float now n (some b) spent
      → let (b', allowed) = consume float r now b in
        Backed float now n (some b') (spent + (if allowed then 1 else 0))
  unfolding Backed
  consume-Backed b spent (zero, tokens, sum, refilled) =
      rw
        (
          consume_frozen float r now b (rw (refilled, sub64_self now) refl),
          take_token_none float (record b { last_seen_nano = now }) tokens,
        )
        (zero, tokens, omega (arith, sum), refilled)
  consume-Backed b spent (suc left, tokens, sum, refilled) =
      rw
        (
          consume_frozen float r now b (rw (refilled, sub64_self now) refl),
          take_token_some float (record b { last_seen_nano = now }) left (omega (arith, sum))
              tokens,
        )
        (left, refl, omega (arith, sum), refilled)

module _ (float : Float64) (now : ℤ) where
  bucket_of-consume_at :
      (l : Limiter float) (ip : Bytes) (p : ℕ)
      → lookup float l ip ≡ some p
      → bucket_of float (consume_at float l p now).0 ip
        ≡ some (consume float l.rates now (l.heap p)).0
  unfolding consume_at
  bucket_of-consume_at l ip p found =
      ap (Option.map (consume_at float l p now).0.heap) (lookup-consume_at float l p now ip ∙ found)
      ∙ ground arith

  bucket_of-insert :
      (l : Limiter float) (ip : Bytes)
      → bucket_of float (insert float l ip now) ip ≡ some (full_bucket float l.rates now)
  unfolding insert
  bucket_of-insert l ip =
      ap (Option.map (insert float l ip now).heap) {y = some l.next}
        (lookup-insert float l ip ip now ∙ rw (eqb_refl ip) refl)
      ∙ ground arith

  pub attempt-weight :
      (l : Limiter float) (ip : Bytes) (c : Pc) {o : Limiter float × Pc}
      → attempt float l ip now c ≡ some o
      → allowed_weight c ≡ 0
  unfolding attempt
  attempt-weight l ip looking h = refl
  attempt-weight l ip creating h = refl
  attempt-weight l ip (consuming p) h = refl
  attempt-weight l ip (answered a) h = absurd (ground (arith, h))

  looked-weight : (o : Option ℕ) → allowed_weight (looked float o) ≡ 0
  looked-weight none = refl
  looked-weight (some p) = refl

  module _ (n : ℕ) (small : n < 2 ^ 53) (l : Limiter float)
      (burst : l.rates.burst_size ≡ Float64.of_int float (pos n)) (ip : Bytes) (spent : ℕ) where
    abbrev Covered : Option (Bucket float) → ℕ → Type 0
    Covered = Backed float now n

    abbrev Covers : Limiter float × Pc → Type 0
    Covers o = Covered (bucket_of float o.0 ip) (spent + allowed_weight o.1)

    created-Covered :
        Covered (bucket_of float l ip) spent
        → Covered (bucket_of float (get_or_create float l ip now).0 ip) spent
    unfolding Backed
    created-Covered backed = elim (Option-cases (lookup float l ip)) [
      | inl missing ↦
          let unspent : spent ≡ 0 =
            subst (λ x. Covered x spent) (ap (Option.map l.heap) missing) backed in
          subst (λ x. Covered (bucket_of float x.0 ip) spent)
            (sym (get_or_create_missing float l ip now missing))
            (subst (λ x. Covered x spent) (sym (bucket_of-insert l ip))
              (subst (λ x. Covered (some (full_bucket float l.rates now)) x) (sym unspent)
                (full-Backed float l.rates now n small burst)))
      | inr (p, found) ↦
          subst (λ x. Covered (bucket_of float x.0 ip) spent)
            (sym (get_or_create_found float l ip now found)) backed
    ]

    pub attempt-Covers :
        (c : Pc) {o : Limiter float × Pc}
        → ((p : ℕ) → c ≡ consuming p → lookup float l ip ≡ some p)
        → Covered (bucket_of float l ip) spent
        → attempt float l ip now c ≡ some o
        → Covers o
    unfolding attempt consume_at
    attempt-Covers looking held backed h = some_subst Covers h (
        subst (Covered (bucket_of float l ip)) (omega (arith, looked-weight (lookup float l ip)))
          backed)
    attempt-Covers creating held backed h = some_subst Covers h (
        subst (Covered (bucket_of float (get_or_create float l ip now).0 ip)) (omega arith)
          (created-Covered backed))
    attempt-Covers (consuming p) held backed h = some_subst Covers h (
        subst (λ x. Covered x (spent + (if (consume_at float l p now).1 then 1 else 0)))
          (sym (bucket_of-consume_at l ip p (held p refl)))
          (consume-Backed float l.rates now n small burst (l.heap p) spent
            (subst (λ x. Covered x spent) (ap (Option.map l.heap) (held p refl)) backed)))
    attempt-Covers (answered a) held backed h = absurd (ground (arith, h))
