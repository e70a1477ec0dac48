-- ===== src/WaitingRoom/Progress.antt =====
-- waitingroom/waitingroom.go: no goroutine leaks.
use peakshield.Prelude.{
  ℕ, zero, suc, ◌+◌, ◌*◌, ◌^◌, ◌≤◌, ◌<◌, ◌≡◌, refl, ◌≢◌, ◌⊎◌, inl, inr, ap, some, arith, Bool-cases,
  ◌==◌, if◌then◌else◌,
}
use peakshield.Prelude.Int.{pos, ◌≤ℤ◌}
use peakshield.Prelude.Family.{sum_below, sum_below-put}
use peakshield.WaitingRoom.Room.{Room, Limits}
use peakshield.WaitingRoom.Goroutine.{
  Pc, arriving, overloaded, joining, offering, turned_away, parked, woken, checking, claiming,
  serving, signalling, sending, draining, drained, expired, abandoned, done, go, timer, Event,
  Outcome, move,
}
use peakshield.WaitingRoom.System.{System, init, after, step, Reach, start, later}
use peakshield.WaitingRoom.Invariant.{step_inversion}
use peakshield.WaitingRoom.Safety.{send_never_blocks}

-- How many shared accesses a goroutine has left at most.
abbrev pub rank : Pc → ℕ
rank arriving = 11
rank overloaded = 10
rank joining = 9
rank (offering _) = 8
rank (parked _) = 7
rank (woken _) = 6
rank (checking _) = 5
rank (claiming _) = 4
rank draining = 4
rank (serving _) = 3
rank drained = 3
rank signalling = 2
rank (sending _) = 1
rank (turned_away _) = 1
rank expired = 1
rank abandoned = 0
rank done = 0

pub move-rank :
    (c : Limits) (i : ℕ) (m : Room) (e : Event) (p : Pc) {o : Outcome}
    → move c i m e p ≡ some o
    → rank o.next < rank p
unfolding move
move-rank c i m e p q = ground arith

rank-init : (n : ℕ) → sum_below rank n init.pc ≡ 11 * n
unfolding init sum_below
rank-init zero = refl
rank-init (suc n) = omega (arith, rank-init n)

-- The number of shared accesses so far.
pub accesses : {n : ℕ} {c : Limits} {s : System} → Reach n c s → ℕ
accesses (start e) = 0
accesses (later i e lt q r) = suc (accesses r)

pub accesses-rank :
    {n : ℕ} {c : Limits} {s : System} (r : Reach n c s)
    → accesses r + sum_below rank n s.pc ≤ 11 * n
unfolding accesses
accesses-rank {n} (start e) = rw e (omega (arith, rank-init n))
accesses-rank {n} {c} (later {s} i e lt q r) =
    let (o, moved, e') = step_inversion c s i e q in
    rw e' (
      omega (
        arith,
        accesses-rank r,
        sum_below-put rank n s.pc i o.next lt,
        move-rank c i s.room e (s.pc i) moved,
      ))

-- The number of shared accesses so far of goroutine `i`, and of what runs under its number.
pub accesses_of : {n : ℕ} {c : Limits} {s : System} → Reach n c s → ℕ → ℕ
accesses_of (start e) i = 0
accesses_of (later j e lt q r) i = accesses_of r i + (if i == j then 1 else 0)

accesses_of-rank :
    {n : ℕ} {c : Limits} {s : System} (r : Reach n c s) (i : ℕ)
    → accesses_of r i + rank (s.pc i) ≤ 11
unfolding accesses_of init
accesses_of-rank (start e) i = rw e (omega arith)
accesses_of-rank {n} {c} (later {s} j e lt q r) i =
    let (o, moved, e') = step_inversion c s j e q in
    rw e' (elim (Bool-cases (i == j)) [
      | inl same ↦
          let own : i ≡ j = ground (arith, same) in
          rw same (
            omega (
              arith,
              accesses_of-rank r i,
              move-rank c j s.room e (s.pc j) moved,
              ap (λ k. rank (s.pc k)) own,
            ))
      | inr other ↦ rw other (omega (arith, accesses_of-rank r i))
    ])

-- Whatever the order of events, each request, with the goroutine that it starts as it returns, makes
-- at most 11 shared accesses, so that there are at most `11 * n` of them for `n` requests.
pub accesses-le :
    {n : ℕ} {c : Limits} {s : System} (r : Reach n c s)
    → ((i : ℕ) → accesses_of r i ≤ 11) × (accesses r ≤ 11 * n)
accesses-le r = (λ i. omega (arith, accesses_of-rank r i), omega (arith, accesses-rank r))

-- An event on which a goroutine at this place can go on by itself.
abbrev pub own_event : Pc → Event
own_event (parked _) = timer
own_event draining = timer
own_event _ = go

move-enabled :
    (c : Limits) (i : ℕ) (m : Room) (p : Pc)
    → p ≢ done
    → p ≢ abandoned
    → ((o : Outcome) × (move c i m (own_event p) p ≡ some o)) ⊎ ((t : ℕ) × (p ≡ sending t))
unfolding move
move-enabled c i m arriving _ _ = inl (_, refl)
move-enabled c i m overloaded _ _ = inl (_, refl)
move-enabled c i m joining _ _ = inl (_, refl)
move-enabled c i m (offering _) _ _ = inl (_, refl)
move-enabled c i m (turned_away _) _ _ = inl (_, refl)
move-enabled c i m (parked _) _ _ = inl (_, refl)
move-enabled c i m (woken _) _ _ = inl (_, refl)
move-enabled c i m (checking _) _ _ = inl (_, refl)
move-enabled c i m (claiming _) _ _ = inl (_, refl)
move-enabled c i m (serving _) _ _ = inl (_, refl)
move-enabled c i m signalling _ _ = inl (_, refl)
move-enabled c i m draining _ _ = inl (_, refl)
move-enabled c i m drained _ _ = inl (_, refl)
move-enabled c i m expired _ _ = inl (_, refl)
move-enabled c i m (sending t) _ _ = inr (t, refl)
move-enabled c i m abandoned _ h = absurd (h refl)
move-enabled c i m done h _ = absurd (h refl)

-- For fewer than 2^63 requests and a MaxConcurrent that is not negative: no goroutine is ever
-- stuck. In every state that can be reached, one that has not returned can make its next access at
-- once, or when its timer fires.
pub never_stuck :
    {n : ℕ} {c : Limits} {s : System}
    → n < 2 ^ 63
    → pos 0 ≤ℤ c.max_concurrent
    → Reach n c s
    → (i : ℕ) → i < n
    → s.pc i ≢ done
    → s.pc i ≢ abandoned
    → (u : System) × (step c s i (own_event (s.pc i)) ≡ some u)
unfolding step
never_stuck {n} {c} {s} small breaker r i lt running waiting =
    elim (move-enabled c i s.room (s.pc i) running waiting) [
      | inl (o, q) ↦ (after s i o, ground (arith, q))
      | inr (t, e) ↦
          let (u, q, _, _) = send_never_blocks small breaker r i t lt e in
          (u, rw (ap own_event e) q)
    ]
