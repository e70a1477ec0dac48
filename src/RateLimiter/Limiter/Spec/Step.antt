-- ===== src/RateLimiter/Limiter/Spec/Step.antt =====
-- ratelimiter/token_bucket.go: Allow and runGC do to the buckets what the specification says.
use peakshield.RateLimiter.Limiter.Spec.{
  Clients, bucket_for, update, spec_allow, unless_idle, spec_gc,
}
use peakshield.RateLimiter.Limiter.Laws.{
  Inv, bucket_of, bucket_of-agree, allow_lem, lookup-insert, get_or_create_found,
  get_or_create_missing, get_or_create-Inv, rates-get_or_create, get_or_create_lem,
}
use peakshield.Prelude.{
  ℕ, ◌≡◌, refl, sym, ap, ◌∙◌, inl, inr, Bool, true, Option, none, some, arith, if◌then◌else◌,
  Bool-cases, Option-cases,
}
use mathlib.Core.Option
use mathlib.Core.Path.{fun_ext}
use peakshield.Prelude.Int.{ℤ}
use peakshield.Prelude.Bytes.{Bytes, eqb, eqb_iff}
use peakshield.Prelude.Float.{Float64}
use peakshield.RateLimiter.Bucket.{Bucket, full_bucket, consume}
use peakshield.RateLimiter.Bucket.Bounds.{Sound}
use peakshield.RateLimiter.Limiter.{
  Limiter, lookup, insert, get_or_create, consume_at, allow, run_gc,
}
use peakshield.RateLimiter.Limiter.Gc.{left_over, lookup-run_gc}

module _ (float : Float64) where
  pub bucket_of-some :
      (l : Limiter float) (j : Bytes) {q : ℕ}
      → lookup float l j ≡ some q
      → bucket_of float l j ≡ some (l.heap q)
  bucket_of-some l j h = ap (Option.map l.heap) h

  bucket_of-none :
      (l : Limiter float) (j : Bytes) → lookup float l j ≡ none → bucket_of float l j ≡ none
  bucket_of-none l j h = ap (Option.map l.heap) h

  pub bucket_of-consume_at :
      (l : Limiter float) (ip j : Bytes) (p : ℕ) (now : ℤ)
      → Inv float l
      → lookup float l ip ≡ some p
      → bucket_of float (consume_at float l p now).0 j
        ≡ (if eqb ip j then some (consume float l.rates now (l.heap p)).0 else bucket_of float l j)
  unfolding consume_at lookup
  bucket_of-consume_at l ip j p now inv found = elim (Option-cases (lookup float l j)) [
    | inl missing ↦
        bucket_of-none (consume_at float l p now).0 j missing
        ∙ ground (arith, bucket_of-none l j missing, eqb_iff ip j)
    | inr (q, there) ↦
        bucket_of-some (consume_at float l p now).0 j there
        ∙ ground (arith, bucket_of-some l j there, eqb_iff ip j, inv.separate ip j {p = p})
  ]

  bucket_of-insert :
      (l : Limiter float) (ip j : Bytes) (now : ℤ)
      → Inv float l
      → bucket_of float (insert float l ip now) j
        ≡ (if eqb ip j then some (full_bucket float l.rates now) else bucket_of float l j)
  unfolding insert
  bucket_of-insert l ip j now inv = elim (Bool-cases (eqb ip j)) [
    | inl same ↦ rw same (
        bucket_of-some (insert float l ip now) j {q = l.next}
          (lookup-insert float l ip j now ∙ rw same refl)
        ∙ ground arith)
    | inr other ↦ rw other (
        bucket_of-agree float l (insert float l ip now) j
          (lookup-insert float l ip j now ∙ rw other refl)
          (λ q there. ground (arith, inv.allocated j {p = q})))
  ]

  pub bucket_of-get_or_create :
      (l : Limiter float) (ip j : Bytes) (now : ℤ)
      → Inv float l
      → bucket_of float (get_or_create float l ip now).0 j ≡ (
          if eqb ip j
          then some (bucket_for float l.rates (bucket_of float l ip) now)
          else bucket_of float l j)
  bucket_of-get_or_create l ip j now inv = elim (Option-cases (lookup float l ip)) [
    | inl missing ↦
        rw (get_or_create_missing float l ip now missing, bucket_of-none l ip missing)
          (bucket_of-insert l ip j now inv)
    | inr (p, found) ↦
        rw (get_or_create_found float l ip now found, bucket_of-some l ip found)
          (ground (arith, eqb_iff ip j, bucket_of-some l ip found))
  ]

  heap-get_or_create_at :
      (l : Limiter float) (ip : Bytes) (now : ℤ)
      → (get_or_create float l ip now).0.heap (get_or_create float l ip now).1
        ≡ bucket_for float l.rates (bucket_of float l ip) now
  unfolding insert
  heap-get_or_create_at l ip now = elim (Option-cases (lookup float l ip)) [
    | inl missing ↦
        rw (get_or_create_missing float l ip now missing, bucket_of-none l ip missing)
          (ground arith)
    | inr (p, found) ↦ rw (get_or_create_found float l ip now found, bucket_of-some l ip found) refl
  ]

  update_twice :
      (m m' : Clients float) (ip j : Bytes) (a b : Bucket float)
      → m' j ≡ (if eqb ip j then some a else m j)
      → (if eqb ip j then some b else m' j) ≡ update float m ip b j
  update_twice m m' ip j a b h = ground arith

  -- What a call comes to is what the specification says.
  abbrev AgreesWith : Limiter float → Clients float × Bool → Limiter float × Bool → Type 0
  AgreesWith l (m, allowed) (l', allowed') =
      (bucket_of float l' ≡ m) × (allowed' ≡ allowed) × (l'.rates ≡ l.rates)

  -- The second half of Allow, after getOrCreate has come to `l'` and the address `p`.
  consume_step :
      (l l' : Limiter float) (p : ℕ) (ip : Bytes) (created now : ℤ)
      → Inv float l'
      → lookup float l' ip ≡ some p
      → l'.rates ≡ l.rates
      → l'.heap p ≡ bucket_for float l.rates (bucket_of float l ip) created
      → ((j : Bytes)
          → bucket_of float l' j ≡ (
              if eqb ip j
              then some (bucket_for float l.rates (bucket_of float l ip) created)
              else bucket_of float l j))
      → AgreesWith l
          (spec_allow float l.rates (bucket_of float l) ip created now)
          (consume_at float l' p now)
  unfolding consume_at
  consume_step l l' p ip created now inv found rates heap others =
      let consumed : consume float l'.rates now (l'.heap p)
          ≡ consume float l.rates now (bucket_for float l.rates (bucket_of float l ip) created) =
        ap (λ r. consume float r now (l'.heap p)) rates ∙ ap (consume float l.rates now) heap in
      (
        fun_ext (λ j.
            bucket_of-consume_at l' ip j p now inv found
            ∙ ap (λ x. if eqb ip j then some x.0 else bucket_of float l' j) consumed
            ∙ update_twice (bucket_of float l) (bucket_of float l') ip j _ _ (others j)),
        ap (λ x. x.1) consumed,
        rates,
      )

  -- A call of Allow answers, and leaves the buckets, as the specification says.
  pub allow_step :
      (l : Limiter float) (ip : Bytes) (created now : ℤ)
      → Inv float l
      → Sound float l.rates
      → AgreesWith l
          (spec_allow float l.rates (bucket_of float l) ip created now)
          (allow float l ip created now)
  allow_step l ip created now inv sound = rw (allow_lem float l ip created now) (
      consume_step l (get_or_create float l ip created).0 (get_or_create float l ip created).1 ip
        created now (get_or_create-Inv float l ip created sound inv)
        (get_or_create_lem float l ip ip created).0 (rates-get_or_create float l ip created)
        (heap-get_or_create_at l ip created) (λ j. bucket_of-get_or_create l ip j created inv))

  gc_lookup :
      (l l' : Limiter float) (cutoff : ℤ) (ip : Bytes) (o : Option ℕ)
      → lookup float l' ip ≡ left_over float cutoff l.heap true o
      → l'.heap ≡ l.heap
      → bucket_of float l' ip ≡ unless_idle float cutoff (Option.map l.heap o)
  gc_lookup l l' cutoff ip none e heaps = ap (Option.map l'.heap) e
  gc_lookup l l' cutoff ip (some p) e heaps =
      ap (Option.map l'.heap) e
      ∙ ap (λ h. Option.map h (left_over float cutoff l.heap true (some p))) heaps
      ∙ ground arith

  -- runGC leaves the buckets that the specification leaves.
  pub run_gc_step :
      (l : Limiter float) (now : ℤ)
      → bucket_of float (run_gc float l now) ≡ spec_gc float (bucket_of float l) now
  run_gc_step l now = fun_ext (λ ip.
      let (left, heaps) = lookup-run_gc float l now ip in
      gc_lookup l (run_gc float l now) _ ip (lookup float l ip) left heaps)

  left_over-some :
      (cutoff : ℤ) (heap : ℕ → Bucket float) (o : Option ℕ) {p : ℕ}
      → left_over float cutoff heap true o ≡ some p
      → o ≡ some p
  left_over-some cutoff heap none h = h
  left_over-some cutoff heap (some q) h = ground arith

  lookup-run_gc-some :
      (l : Limiter float) (now : ℤ) (ip : Bytes) {p : ℕ}
      → lookup float (run_gc float l now) ip ≡ some p
      → lookup float l ip ≡ some p
  lookup-run_gc-some l now ip h =
      left_over-some _ l.heap (lookup float l ip) (sym (lookup-run_gc float l now ip).0 ∙ h)

  pub run_gc-Inv : (l : Limiter float) (now : ℤ) → Inv float l → Inv float (run_gc float l now)
  unfolding run_gc
  run_gc-Inv l now inv = record {
    allocated = λ ip h. inv.allocated ip (lookup-run_gc-some l now ip h);
    separate =
        λ a b h k. inv.separate a b (lookup-run_gc-some l now a h) (lookup-run_gc-some l now b k);
    filled = inv.filled;
  }

  pub rates-run_gc : (l : Limiter float) (now : ℤ) → (run_gc float l now).rates ≡ l.rates
  unfolding run_gc
  rates-run_gc l now = refl
