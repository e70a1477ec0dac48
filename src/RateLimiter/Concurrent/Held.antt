-- ===== src/RateLimiter/Concurrent/Held.antt =====
-- ratelimiter/token_bucket.go: the buckets that calls of Allow hold, while others go on.
use peakshield.Prelude.{
  ℕ, ◌<◌, ◌≤◌, ◌≡◌, ◌≢◌, ◌∙◌, ap, ◌==◌, List, Option, none, some, arith, inl, inr, Bool-cases,
  Option-cases,
}
use peakshield.Prelude.Int.{ℤ}
use peakshield.Prelude.Family.{put}
use peakshield.Prelude.Bytes.{Bytes}
use peakshield.Prelude.Float.{Float64}
use peakshield.RateLimiter.Hash.{shard_for}
use peakshield.RateLimiter.Bucket.Bounds.{Sound}
use peakshield.RateLimiter.Limiter.{Limiter, lookup, insert, get_or_create, consume_at, find}
use peakshield.RateLimiter.Limiter.Laws.{
  Inv, get_or_create-Inv, consume_at-Inv, get_or_create_found, get_or_create_missing, lookup-insert,
}
use peakshield.RateLimiter.Limiter.Gc.{contains, left_over, find-evict}
use peakshield.RateLimiter.Concurrent.{Pc, consuming, collect}

module _ (float : Float64) (ips : ℕ → Bytes) where
  -- A bucket that a call holds is allocated, stands in the map under the call's address if it stands
  -- there at all, and is held by calls for this address only.
  pub record Held (l : Limiter float) (pc : ℕ → Pc) : Type 0 where
    pub inv : Inv float l
    pub alloc : (i : ℕ) {p : ℕ} → pc i ≡ consuming p → p < l.next
    pub own :
        (i : ℕ) (j : Bytes) {p : ℕ} → pc i ≡ consuming p → lookup float l j ≡ some p → ips i ≡ j
    pub apart : (i k : ℕ) {p : ℕ} → pc i ≡ consuming p → pc k ≡ consuming p → ips i ≡ ips k

  -- A call that comes to hold no bucket.
  pub let_go-Held :
      (l : Limiter float) (pc : ℕ → Pc) (i : ℕ) (c : Pc)
      → ((p : ℕ) → c ≢ consuming p)
      → Held l pc
      → Held l (put pc i c)
  let_go-Held l pc i c none_held held = record {
    inv = held.inv;
    alloc = λ k {p} h. ground (arith, none_held p, held.alloc k {p = p});
    own = λ k j {p} h e. ground (arith, none_held p, held.own k j {p = p});
    apart = λ k m {p} h e. ground (arith, none_held p, held.apart k m {p = p});
  }

  -- A call that takes the bucket that the map holds for its address.
  pub take_up-Held :
      (l : Limiter float) (pc : ℕ → Pc) (i b : ℕ)
      → lookup float l (ips i) ≡ some b
      → Held l pc
      → Held l (put pc i (consuming b))
  take_up-Held l pc i b found held = record {
    inv = held.inv;
    alloc = λ k {p} h. ground (arith, held.inv.allocated (ips i) found, held.alloc k {p = p});
    own = λ k j {p} h e.
        ground (arith, found, held.inv.separate (ips i) j {p = b}, held.own k j {p = p});
    apart = λ k m {p} h e. ground (
      arith,
      found,
      held.own k (ips i) {p = b},
      held.own m (ips i) {p = b},
      held.apart k m {p = p},
    );
  }

  next-get_or_create :
      (l : Limiter float) (ip : Bytes) (now : ℤ) → l.next ≤ (get_or_create float l ip now).0.next
  unfolding get_or_create insert
  next-get_or_create l ip now = ground arith

  -- An entry whose bucket is an old one was there before.
  lookup-get_or_create_old :
      (l : Limiter float) (ip j : Bytes) (now : ℤ) {p : ℕ}
      → p < l.next
      → lookup float (get_or_create float l ip now).0 j ≡ some p
      → lookup float l j ≡ some p
  lookup-get_or_create_old l ip j now old h = elim (Option-cases (lookup float l ip)) [
    | inl missing ↦
        let h' = rw (get_or_create_missing float l ip now missing) at h in
        ground (arith, lookup-insert float l ip j now, h')
    | inr (q, found) ↦ rw (get_or_create_found float l ip now found) at h
  ]

  pub grow-Held :
      (l : Limiter float) (pc : ℕ → Pc) (ip : Bytes) (now : ℤ)
      → Sound float l.rates
      → Held l pc
      → Held (get_or_create float l ip now).0 pc
  grow-Held l pc ip now sound held = record {
    inv = get_or_create-Inv float l ip now sound held.inv;
    alloc = λ k h. omega (arith, held.alloc k h, next-get_or_create l ip now);
    own = λ k j h e. held.own k j h (lookup-get_or_create_old l ip j now (held.alloc k h) e);
    apart = held.apart;
  }

  pub spend-Held :
      (l : Limiter float) (pc : ℕ → Pc) (p : ℕ) (now : ℤ)
      → Sound float l.rates
      → Held l pc
      → Held (consume_at float l p now).0 pc
  unfolding consume_at lookup
  spend-Held l pc p now sound held = record {
    inv = consume_at-Inv float l p now sound held.inv;
    alloc = held.alloc;
    own = held.own;
    apart = held.apart;
  }

  -- What the garbage collector leaves in the map was there before.
  lookup-collect :
      (l : Limiter float) (shard : ℕ) (cutoff : ℤ) (candidates : List Bytes) (j : Bytes) {p : ℕ}
      → lookup float (collect float shard cutoff candidates l) j ≡ some p
      → lookup float l j ≡ some p
  unfolding lookup collect
  lookup-collect l shard cutoff candidates j h = elim (Bool-cases (shard_for j == shard)) [
    | inl here ↦
        let same : shard_for j ≡ shard = ground (arith, here) in
        ap (λ x. find j (l.shards x)) same
        ∙ left (find j (l.shards shard))
            (rw (here, find-evict float cutoff l.heap candidates (l.shards shard, 0) j) at h)
    | inr elsewhere ↦ rw elsewhere at h
  ]
    where
      left :
          (o : Option ℕ) {p : ℕ}
          → left_over float cutoff l.heap (contains j candidates) o ≡ some p
          → o ≡ some p
      left none e = cc
      left (some q) e = ground arith

  pub shrink-Held :
      (l : Limiter float) (pc : ℕ → Pc) (shard : ℕ) (cutoff : ℤ) (candidates : List Bytes)
      → Held l pc
      → Held (collect float shard cutoff candidates l) pc
  unfolding collect
  shrink-Held l pc shard cutoff candidates held = record {
    inv = record {
      allocated = λ ip h. held.inv.allocated ip (lookup-collect l shard cutoff candidates ip h);
      separate = λ a b h k.
          held.inv.separate a b (lookup-collect l shard cutoff candidates a h)
            (lookup-collect l shard cutoff candidates b k);
      filled = held.inv.filled;
    };
    alloc = held.alloc;
    own = λ i j h e. held.own i j h (lookup-collect l shard cutoff candidates j e);
    apart = held.apart;
  }
