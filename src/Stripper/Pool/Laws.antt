-- ===== src/Stripper/Pool/Laws.antt =====
-- stripper/stripper.go: no two requests share a buffer.
use peakshield.Prelude.{
  ℕ, ◌+◌, ◌-◌, ◌≤◌, ◌<◌, ◌≡◌, refl, sym, ap, ◌∙◌, ◌≢◌, inl, inr, none, some, List, [], ◌∷◌, arith,
  ltb, ◌==◌, if◌then◌else◌, Option-cases, count,
}
use peakshield.Prelude.Family.{
  put, sum_below, sum_below-put, sum_below-eq_zero, weight-le-sum_below,
}
use peakshield.Stripper.Pool.{
  Pool, remove, Pc, outside, buffering, rendering, closing, Event, begin, chunk, html, leave, move,
  System, step, init, Reach, start, later,
}

-- How often a request at this place holds the buffer `t`.
abbrev pub holds : ℕ → Pc → ℕ
holds t outside = 0
holds t (buffering b) = if b == t then 1 else 0
holds t (rendering b o) = (if b == t then 1 else 0) + (if o == t then 1 else 0)
holds t (closing b) = if b == t then 1 else 0

-- A buffer is in one place at most, in the pool or with a request, and in none before it is made.
abbrev room_for : Pool → ℕ → ℕ
room_for p t = if ltb t p.made then 1 else 0

abbrev Inv : ℕ → System → Type 0
Inv n s = (t : ℕ) → count t s.pool.free + sum_below (holds t) n s.pc ≤ room_for s.pool t

count-remove :
    (t b : ℕ) (l : List ℕ)
    → 0 < count b l
    → count t (remove b l) + (if b == t then 1 else 0) ≡ count t l
unfolding remove
count-remove t b [] h = absurd (omega (arith, h))
count-remove t b (c ∷ cs) h = ground (arith, count-remove t b cs)

move-holds :
    (p : Pool) (e : Event) (c : Pc) (t total : ℕ) {p' : Pool} {c' : Pc}
    → count t p.free + total + holds t c ≤ room_for p t
    → move p e c ≡ some (p', c')
    → count t p'.free + total + holds t c' ≤ room_for p' t
unfolding move
move-holds p (begin none) outside t total h q = ground arith
move-holds p (begin (some b)) outside t total h q = ground (arith, count-remove t b p.free)
move-holds p (chunk c) (buffering b) t total h q = ground arith
move-holds p (html none) (buffering b) t total h q = ground arith
move-holds p (html (some o)) (buffering b) t total h q = ground (arith, count-remove t o p.free)
move-holds p leave (buffering b) t total h q = ground arith
move-holds p (chunk c) (rendering b o) t total h q = ground arith
move-holds p leave (rendering b o) t total h q = ground arith
move-holds p leave (closing b) t total h q = ground arith
move-holds p e c t total h q = absurd (ground (arith, q))

-- A step leaves a buffer alone that the request holds neither before nor after.
move-text :
    (p : Pool) (e : Event) (c : Pc) (t : ℕ) {p' : Pool} {c' : Pc}
    → holds t c ≡ 0
    → move p e c ≡ some (p', c')
    → holds t c' ≡ 0
    → p'.text t ≡ p.text t
unfolding move
move-text p (begin none) outside t h q k = ground arith
move-text p (begin (some b)) outside t h q k = ground arith
move-text p (chunk c) (buffering b) t h q k = ground arith
move-text p (html none) (buffering b) t h q k = ground arith
move-text p (html (some o)) (buffering b) t h q k = ground arith
move-text p leave (buffering b) t h q k = ground arith
move-text p (chunk c) (rendering b o) t h q k = ground arith
move-text p leave (rendering b o) t h q k = ground arith
move-text p leave (closing b) t h q k = ground arith
move-text p e c t h q k = absurd (ground (arith, q))

step_inversion :
    (s : System) (i : ℕ) (e : Event) {t : System}
    → step s i e ≡ some t
    → (p : Pool) × (c : Pc) × (move s.pool e (s.pc i) ≡ some (p, c))
      × (t ≡ record { pool = p; pc = put s.pc i c })
unfolding step
step_inversion s i e h = elim (Option-cases (move s.pool e (s.pc i))) [
  | inl blocked ↦ absurd (ground (arith, h, blocked))
  | inr ((p, c), moved) ↦ (p, c, moved, ground (arith, h, moved))
]

Reach-Inv : {n : ℕ} {s : System} → Reach n s → Inv n s
unfolding init
Reach-Inv {n} (start e) t =
    rw e (omega (arith, sum_below-eq_zero (holds t) n (λ (i : ℕ). outside) (λ i lt. refl)))
Reach-Inv {n} (later {s} i e lt q r) t =
    let (p, c, moved, e') = step_inversion s i e q in
    let before = Reach-Inv r t in
    let mine = weight-le-sum_below (holds t) n s.pc i lt in
    let kept =
      move-holds s.pool e (s.pc i) t (sum_below (holds t) n s.pc - holds t (s.pc i))
        (omega (arith, before, mine)) moved in
    rw e' (omega (arith, kept, mine, sum_below-put (holds t) n s.pc i c lt))

-- Two entries weigh no more than all.
two-le-sum_below :
    (t n : ℕ) (pc : ℕ → Pc) (i k : ℕ)
    → i < n
    → k < n
    → i ≢ k
    → holds t (pc i) + holds t (pc k) ≤ sum_below (holds t) n pc
two-le-sum_below t n pc i k i_lt k_lt apart =
    let others = weight-le-sum_below (holds t) n (put pc i outside) k k_lt in
    let same : put pc i outside k ≡ pc k = ground (arith, apart) in
    omega (arith, others, ap (holds t) same, sum_below-put (holds t) n pc i outside i_lt)

room_for-le-one : (p : Pool) (t : ℕ) → room_for p t ≤ 1
room_for-le-one p t = ground arith

module _ {n : ℕ} {s : System} (r : Reach n s) where
  exclusive : (i k b : ℕ) → i < n → k < n → i ≢ k → holds b (s.pc i) + holds b (s.pc k) ≤ 1
  exclusive i k b i_lt k_lt apart = omega (
    arith,
    Reach-Inv r b,
    room_for-le-one s.pool b,
    two-le-sum_below b n s.pc i k i_lt k_lt apart,
  )

  -- The buffer that stripHTML reads and the one that it writes differ.
  buffers_differ : (k b o : ℕ) → k < n → s.pc k ≡ rendering b o → b ≢ o
  buffers_differ k b o lt at same =
      let inside = weight-le-sum_below (holds b) n s.pc k lt in
      let twice : holds b (s.pc k) ≡ 2 = rw at (ground (arith, same)) in
      omega (arith, Reach-Inv r b, room_for-le-one s.pool b, inside, twice)

-- However the steps of requests that run at the same time are mixed, and whichever buffers the pool
-- hands out: a buffer that one request holds is held by no other, before or after a step of the
-- other, and that step leaves its text alone.
pub buffer_private :
    {n : ℕ} {s t : System} (i k b : ℕ) (e : Event)
    → Reach n s
    → i < n
    → k < n
    → i ≢ k
    → step s i e ≡ some t
    → 0 < holds b (s.pc k)
    → (holds b (s.pc i) ≡ 0) × (holds b (t.pc i) ≡ 0) × (t.pool.text b ≡ s.pool.text b)
buffer_private {n} {s} {t} i k b e r i_lt k_lt apart q mine =
    let (p, c, moved, e') = step_inversion s i e q in
    let before : holds b (s.pc i) ≡ 0 = omega (arith, mine, exclusive r i k b i_lt k_lt apart) in
    let now : t.pc i ≡ c = ap (λ x. x.pc i) e' ∙ ground arith in
    let still : t.pc k ≡ s.pc k = ap (λ x. x.pc k) e' ∙ ground (arith, apart) in
    let after : holds b (t.pc i) ≡ 0 =
      omega
        (arith, mine, ap (holds b) still, exclusive (later i e i_lt q r) i k b i_lt k_lt apart) in
    (
      before,
      after,
      ap (λ x. x.pool.text b) e'
          ∙ move-text s.pool e (s.pc i) b before moved (sym (ap (holds b) now) ∙ after),
    )
