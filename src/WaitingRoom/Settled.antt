-- ===== src/WaitingRoom/Settled.antt =====
-- waitingroom/waitingroom.go: where the requests end.
use peakshield.WaitingRoom.Progress.{
  rank, move-rank, own_event, never_stuck, accesses, accesses-rank,
}
use peakshield.Prelude.{
  ℕ, zero, suc, ◌+◌, ◌*◌, ◌^◌, ◌≤◌, ◌<◌, ◌≡◌, refl, sym, ◌∙◌, subst, ◌≢◌, ◌⊎◌, inl, inr, true, none,
  some, List, [], ◌∷◌, arith, ltb, length,
}
use native.Mathlib.Decide.{dec_lt}
use peakshield.Prelude.Int.{pos, ◌≤ℤ◌}
use peakshield.Prelude.Family.{sum_below, sum_below-put}
use peakshield.WaitingRoom.Room.{Limits}
use peakshield.WaitingRoom.Goroutine.{
  Pc, arriving, overloaded, joining, offering, turned_away, parked, woken, checking, claiming,
  serving, signalling, sending, draining, drained, expired, abandoned, done, Event,
}
use peakshield.WaitingRoom.System.{System, step, turn, run, Reach, later}
use peakshield.WaitingRoom.Invariant.{step_inversion}
use peakshield.WaitingRoom.Safety.{all_returned}
use peakshield.WaitingRoom.Replies.{is_settled, answered, reply-answered}

abbrev pub Returned : Pc → Type 0
Returned p = (p ≡ done) ⊎ (p ≡ abandoned)

abbrev Running : Pc → Type 0
Running p = (p ≢ done) × (p ≢ abandoned)

Pc-cases : (p : Pc) → Returned p ⊎ Running p
Pc-cases done = inl (inl refl)
Pc-cases abandoned = inl (inr refl)
Pc-cases arriving = inr (λ e. cc, λ e. cc)
Pc-cases overloaded = inr (λ e. cc, λ e. cc)
Pc-cases joining = inr (λ e. cc, λ e. cc)
Pc-cases (offering _) = inr (λ e. cc, λ e. cc)
Pc-cases (turned_away _) = inr (λ e. cc, λ e. cc)
Pc-cases (parked _) = inr (λ e. cc, λ e. cc)
Pc-cases (woken _) = inr (λ e. cc, λ e. cc)
Pc-cases (checking _) = inr (λ e. cc, λ e. cc)
Pc-cases (claiming _) = inr (λ e. cc, λ e. cc)
Pc-cases (serving _) = inr (λ e. cc, λ e. cc)
Pc-cases signalling = inr (λ e. cc, λ e. cc)
Pc-cases (sending _) = inr (λ e. cc, λ e. cc)
Pc-cases draining = inr (λ e. cc, λ e. cc)
Pc-cases drained = inr (λ e. cc, λ e. cc)
Pc-cases expired = inr (λ e. cc, λ e. cc)

-- All have returned, or one of them is still running.
who_runs :
    (n : ℕ) (pc : ℕ → Pc)
    → ((i : ℕ) → i < n → Returned (pc i)) ⊎ ((i : ℕ) × (i < n) × Running (pc i))
who_runs zero pc = inl (λ i lt. absurd (omega arith))
who_runs (suc n) pc = elim (Pc-cases (pc n)) [
  | inr running ↦ inr (n, omega arith, running)
  | inl returned ↦ elim (who_runs n pc) [
    | inr (i, lt, running) ↦ inr (i, omega arith, running)
    | inl all ↦ inl (λ i lt. elim (dec_lt i n) [
      | yes below ↦ all i below
      | no above ↦ subst (λ k. Returned (pc k)) (omega arith) returned
    ])
  ]
]

-- What is left when it is over: all have returned, each client has its answer or has gone, and the
-- counters are back at zero.
abbrev pub Settled : ℕ → System → Type 0
Settled n s =
    ((i : ℕ) → i < n → Returned (s.pc i) × (is_settled (s.reply i) ≡ true))
    × (s.room.active_requests ≡ pos 0)
    × (s.room.queue_depth ≡ pos 0)

Returned-answered : (p : Pc) → Returned p → answered p ≡ true
Returned-answered p (inl e) = rw e refl
Returned-answered p (inr e) = rw e refl

step-rank :
    {n : ℕ} (c : Limits) (s : System) {u : System} (i : ℕ) (e : Event)
    → i < n
    → step c s i e ≡ some u
    → sum_below rank n u.pc < sum_below rank n s.pc
step-rank {n} c s i e lt q =
    let (o, moved, e') = step_inversion c s i e q in
    rw e'
      (omega (arith, sum_below-put rank n s.pc i o.next lt, move-rank c i s.room e (s.pc i) moved))

turn-eq :
    {n : ℕ} (c : Limits) (s : System) {u : System} (i : ℕ) (e : Event)
    → i < n
    → step c s i e ≡ some u
    → turn n c s i e ≡ u
unfolding turn
turn-eq {n} c s i e lt q = let inside : ltb i n ≡ true = ground arith in rw (inside, q) refl

module _ {n : ℕ} {c : Limits} (small : n < 2 ^ 63) (breaker : pos 0 ≤ℤ c.max_concurrent) where
  Returned-Settled :
      {s : System} → Reach n c s → ((i : ℕ) → i < n → Returned (s.pc i)) → Settled n s
  Returned-Settled {s} r all =
      let (active, depth, _) = all_returned small breaker r all 0 in
      (
        λ i lt. (all i lt, reply-answered r i ∙ Returned-answered (s.pc i) (all i lt)),
        active,
        depth,
      )

  -- For fewer than 2^63 requests and a MaxConcurrent that is not negative: a state that can be
  -- reached and in which nobody can move, whatever the event, is one in which all requests have
  -- returned, each client has its answer or has gone, and both counters are at zero. No deadlock.
  no_deadlock :
      {s : System} → Reach n c s → ((i : ℕ) (e : Event) → i < n → step c s i e ≡ none) → Settled n s
  no_deadlock {s} r still = elim (who_runs n s.pc) [
    | inl all ↦ Returned-Settled r all
    | inr (i, lt, running) ↦
        let (u, q) = never_stuck small breaker r i lt running.0 running.1 in
        let stuck = still i (own_event (s.pc i)) lt in absurd (ground (arith, q, stuck))
  ]

  settle_within :
      (k : ℕ) (s : System)
      → sum_below rank n s.pc ≤ k
      → Reach n c s
      → (es : List (ℕ × Event)) × (length es ≤ k) × Settled n (run n c s es)
  unfolding run
  settle_within zero s bound r = elim (who_runs n s.pc) [
    | inl all ↦ ([], omega arith, Returned-Settled r all)
    | inr (i, lt, running) ↦
        let (u, q) = never_stuck small breaker r i lt running.0 running.1 in
        absurd (omega (arith, bound, step-rank c s i (own_event (s.pc i)) lt q))
  ]
  settle_within (suc k) s bound r = elim (who_runs n s.pc) [
    | inl all ↦ ([], omega arith, Returned-Settled r all)
    | inr (i, lt, running) ↦
        let (u, q) = never_stuck small breaker r i lt running.0 running.1 in
        let (es, short, settled) =
          settle_within k u (omega (arith, bound, step-rank c s i (own_event (s.pc i)) lt q))
            (later i _ lt q r) in
        (
          (i, own_event (s.pc i)) ∷ es,
          omega (arith, short),
          subst (λ t. Settled n (run n c t es)) (sym (turn-eq c s i _ lt q)) settled,
        )
  ]

  -- For fewer than 2^63 requests and a MaxConcurrent that is not negative: from every state that can
  -- be reached there is a course of events, of no more than the accesses that are left of the 11 for
  -- each request, after which all requests have returned, each client has its answer or has gone,
  -- and both counters are back at zero.
  pub can_settle :
      {s : System} (r : Reach n c s)
      → (es : List (ℕ × Event)) × (accesses r + length es ≤ 11 * n) × Settled n (run n c s es)
  can_settle {s} r =
      let (es, short, settled) = settle_within (sum_below rank n s.pc) s (omega arith) r in
      (es, omega (arith, accesses-rank r, short), settled)
