-- ===== src/RateLimiter/Limiter/Laws.antt =====
-- ratelimiter/token_bucket.go: Allow touches the bucket of its address and no other.
use peakshield.Prelude.{
  ℕ, ◌<◌, ◌≡◌, refl, ap, Option, ◌∙◌, ◌≢◌, ◌⊎◌, none, some, arith, inl, inr, Option-cases,
  Bool-cases, if◌then◌else◌, ◌==◌,
}
use mathlib.Core.Option
use peakshield.Prelude.Int.{ℤ}
use peakshield.Prelude.Bytes.{Bytes, eqb, eqb_iff, eqb_refl}
use peakshield.Prelude.Float.{Float64}
use peakshield.RateLimiter.Bucket.{Bucket, Rates, full_bucket}
use peakshield.RateLimiter.Bucket.Bounds.{InBounds, Sound, consume-InBounds}
use peakshield.RateLimiter.Limiter.{
  Limiter, new, find, lookup, insert, get_or_create, consume_at, allow,
}

module _ (float : Float64) where
  -- Different addresses have different buckets, all of them allocated, and no bucket is
  -- overdrawn or overfull.
  pub record Inv (l : Limiter float) : Type 0 where
    pub allocated : (ip : Bytes) {p : ℕ} → lookup float l ip ≡ some p → p < l.next
    pub separate :
        (a b : Bytes) {p : ℕ} → lookup float l a ≡ some p → lookup float l b ≡ some p → a ≡ b
    pub filled : (p : ℕ) → InBounds float l.rates (l.heap p)

  pub lookup-insert :
      (l : Limiter float) (ip j : Bytes) (now : ℤ)
      → lookup float (insert float l ip now) j
        ≡ (if eqb ip j then some l.next else lookup float l j)
  unfolding lookup insert
  lookup-insert l ip j now = ground (arith, eqb_iff ip j)

  pub lookup-consume_at :
      (l : Limiter float) (p : ℕ) (now : ℤ) (j : Bytes)
      → lookup float (consume_at float l p now).0 j ≡ lookup float l j
  unfolding lookup consume_at
  lookup-consume_at l p now j = refl

  -- getOrCreate answers with the bucket that the map holds for the address afterwards. One that was
  -- there stays; a new one is put at an address of its own, and no other entry changes.
  pub get_or_create_lem :
      (l : Limiter float) (ip j : Bytes) (now : ℤ)
      → let (l', p) = get_or_create float l ip now in
        (lookup float l' ip ≡ some p)
        × (ip ≢ j → lookup float l' j ≡ lookup float l j)
        × ((lookup float l ip ≡ some p) ⊎ ((lookup float l ip ≡ none) × (p ≡ l.next)))
  unfolding get_or_create
  get_or_create_lem l ip j now = elim (Option-cases (lookup float l ip)) [
    | inl missing ↦
        rw (missing, get_or_create)
          (
            rw (lookup-insert l ip ip now, eqb_refl ip) refl,
            λ other. ground (arith, lookup-insert l ip j now, eqb_iff ip j),
            inr (refl, refl),
          )
    | inr (p, found) ↦ rw (found, get_or_create) (found, λ _. refl, inl refl)
  ]

  -- The unlocked lookup of Allow only saves time: with nobody between its steps, Allow is
  -- getOrCreate and then consume.
  pub allow_lem :
      (l : Limiter float) (ip : Bytes) (created now : ℤ)
      → allow float l ip created now
        ≡ (let (l', p) = get_or_create float l ip created in consume_at float l' p now)
  unfolding allow get_or_create
  allow_lem l ip created now = ground arith

module _ (float : Float64) where
  pub get_or_create_found :
      (l : Limiter float) (ip : Bytes) (now : ℤ) {p : ℕ}
      → lookup float l ip ≡ some p
      → get_or_create float l ip now ≡ (l, p)
  unfolding get_or_create
  get_or_create_found l ip now found = rw (found, get_or_create)

  pub get_or_create_missing :
      (l : Limiter float) (ip : Bytes) (now : ℤ)
      → lookup float l ip ≡ none
      → get_or_create float l ip now ≡ (insert float l ip now, l.next)
  unfolding get_or_create
  get_or_create_missing l ip now missing = rw (missing, get_or_create)

  -- A bucket that is in the map stays there.
  pub lookup-get_or_create_stays :
      (l : Limiter float) (ip j : Bytes) (now : ℤ) {p : ℕ}
      → lookup float l j ≡ some p
      → lookup float (get_or_create float l ip now).0 j ≡ some p
  lookup-get_or_create_stays l ip j now h = elim (Option-cases (lookup float l ip)) [
    | inl missing ↦
        rw (get_or_create_missing l ip now missing)
          (ground (arith, lookup-insert float l ip j now, eqb_iff ip j))
    | inr (q, found) ↦ rw (get_or_create_found l ip now found) h
  ]

  pub lookup-allow_stays :
      (l : Limiter float) (ip j : Bytes) (created now : ℤ) {p : ℕ}
      → lookup float l j ≡ some p
      → lookup float (allow float l ip created now).0 j ≡ some p
  lookup-allow_stays l ip j created now h = rw (allow_lem float l ip created now) (
      lookup-consume_at float (get_or_create float l ip created).0
        (get_or_create float l ip created).1 now j
      ∙ lookup-get_or_create_stays l ip j created h)

  insert-Inv :
      (l : Limiter float) (ip : Bytes) (now : ℤ)
      → Sound float l.rates
      → lookup float l ip ≡ none
      → Inv float l
      → Inv float (insert float l ip now)
  unfolding insert full_bucket
  insert-Inv l ip now sound missing inv = record {
    allocated = λ j {p} h. ground (arith, lookup-insert float l ip j now, inv.allocated j {p = p});
    separate = λ a b {p} h k. ground (
      arith,
      lookup-insert float l ip a now,
      lookup-insert float l ip b now,
      eqb_iff ip a,
      eqb_iff ip b,
      inv.allocated a {p = p},
      inv.allocated b {p = p},
      inv.separate a b {p = p},
    );
    filled = λ p. elim (Bool-cases (p == l.next)) [
      | inl same ↦ rw same (sound.1, (Float64.le_number float _ l.rates.burst_size sound.1).1)
      | inr other ↦ rw other (inv.filled p)
    ];
  }

  pub get_or_create-Inv :
      (l : Limiter float) (ip : Bytes) (now : ℤ)
      → Sound float l.rates
      → Inv float l
      → Inv float (get_or_create float l ip now).0
  get_or_create-Inv l ip now sound inv = elim (Option-cases (lookup float l ip)) [
    | inr (p, found) ↦ rw (get_or_create_found l ip now found) inv
    | inl missing ↦
        rw (get_or_create_missing l ip now missing) (insert-Inv l ip now sound missing inv)
  ]

  pub consume_at-Inv :
      (l : Limiter float) (p : ℕ) (now : ℤ)
      → Sound float l.rates
      → Inv float l
      → Inv float (consume_at float l p now).0
  unfolding consume_at lookup
  consume_at-Inv l p now sound inv = record {
    allocated = inv.allocated;
    separate = inv.separate;
    filled = λ q. elim (Bool-cases (q == p)) [
      | inl same ↦ rw same (consume-InBounds float l.rates now (l.heap p) sound (inv.filled p))
      | inr other ↦ rw other (inv.filled q)
    ];
  }

  pub rates-get_or_create :
      (l : Limiter float) (ip : Bytes) (now : ℤ) → (get_or_create float l ip now).0.rates ≡ l.rates
  unfolding get_or_create insert
  rates-get_or_create l ip now = ground arith

  -- Allow keeps the invariant: no two addresses share a bucket, and no bucket is overdrawn or
  -- overfull.
  pub allow-Inv :
      (l : Limiter float) (ip : Bytes) (created now : ℤ)
      → Sound float l.rates
      → Inv float l
      → Inv float (allow float l ip created now).0
  allow-Inv l ip created now sound inv = rw (allow_lem float l ip created now) (
      consume_at-Inv (get_or_create float l ip created).0 (get_or_create float l ip created).1 now
        (rw (rates-get_or_create l ip created) sound) (get_or_create-Inv l ip created sound inv))

  pub heap-get_or_create :
      (l : Limiter float) (ip : Bytes) (now : ℤ) (q : ℕ)
      → q < l.next
      → (get_or_create float l ip now).0.heap q ≡ l.heap q
  unfolding get_or_create insert
  heap-get_or_create l ip now q h = ground arith

  pub heap-consume_at :
      (l : Limiter float) (p q : ℕ) (now : ℤ)
      → q ≢ p
      → (consume_at float l p now).0.heap q ≡ l.heap q
  unfolding consume_at
  heap-consume_at l p q now h = ground arith

  -- The bucket of an address, if it has one.
  abbrev pub bucket_of : Limiter float → Bytes → Option (Bucket float)
  bucket_of l j = Option.map l.heap (lookup float l j)

  pub bucket_of-agree :
      (l l' : Limiter float) (j : Bytes)
      → lookup float l' j ≡ lookup float l j
      → ((q : ℕ) → lookup float l j ≡ some q → l'.heap q ≡ l.heap q)
      → bucket_of l' j ≡ bucket_of l j
  bucket_of-agree l l' j same heaps =
      ap (Option.map l'.heap) same ∙ (elim (Option-cases (lookup float l j)) [
        | inl nothing ↦ rw nothing refl
        | inr (q, there) ↦ rw there (ap some (heaps q there))
      ])

  -- A limiter that has seen no request.
  pub new-Inv : (r : Rates float) → Sound float r → Inv float (new float r)
  unfolding new lookup find full_bucket
  new-Inv r sound = record {
    allocated = λ ip h. cc;
    separate = λ a b h k. cc;
    filled = λ p. (sound.1, (Float64.le_number float _ r.burst_size sound.1).1);
  }
