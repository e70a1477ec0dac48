-- ===== src/WaitingRoom/Invariant.antt =====
-- waitingroom/waitingroom.go: what holds of the shared state and of the goroutines between any two
-- shared accesses, and that every move keeps it.
mod Defs
mod Counters
mod Tickets
pub use Defs.*
use Defs.{in_flight, in_depth, admitted_directly, holds, Inv}
use Counters.{move-active, move-depth, move-breaker}
use Tickets.{move-bounded, move-tickets}
use peakshield.Prelude.{
  ℕ, ◌^◌, ◌≤◌, ◌<◌, ◌≡◌, refl, sym, subst, some, arith, Option-cases, inl, inr,
}
use peakshield.Prelude.Int.{pos, ◌≤ℤ◌}
use peakshield.Prelude.Family.{sum_below, sum_below-eq_zero}
use peakshield.WaitingRoom.Room.{Limits}
use peakshield.WaitingRoom.Goroutine.{arriving, Event, Outcome, move}
use peakshield.WaitingRoom.System.{System, init, after, step, Reach, start, later}

init-Inv : (n : ℕ) (c : Limits) → pos 0 ≤ℤ c.max_concurrent → Inv n c init
unfolding init
init-Inv n c h = record {
  active = ground (arith, sum_below-eq_zero in_flight n init.pc (λ i lt. refl));
  depth = ground (arith, sum_below-eq_zero in_depth n init.pc (λ i lt. refl));
  bounded = omega arith;
  breaker = ground (arith, sum_below-eq_zero admitted_directly n init.pc (λ i lt. refl));
  tickets = λ t. ground (arith, sum_below-eq_zero (holds t) n init.pc (λ i lt. refl));
}

-- A step is a move of its goroutine.
pub step_inversion :
    (c : Limits) (s : System) (i : ℕ) (e : Event) {t : System}
    → step c s i e ≡ some t
    → (o : Outcome) × (move c i s.room e (s.pc i) ≡ some o) × (t ≡ after s i o)
unfolding step
step_inversion c s i e q = elim (Option-cases (move c i s.room e (s.pc i))) [
  | inl blocked ↦ ground (arith, blocked)
  | inr (o, moved) ↦ (o, moved, ground (arith, moved))
]

move-Inv :
    {n : ℕ} {c : Limits} {s : System} (i : ℕ) (e : Event) {o : Outcome}
    → n < 2 ^ 63
    → i < n
    → Inv n c s
    → move c i s.room e (s.pc i) ≡ some o
    → Inv n c (after s i o)
move-Inv {n} {c} {s} i e small lt inv q = record {
  active = move-active c s.room s.pc i small lt e (s.pc i) refl inv.active q;
  depth = move-depth c s.room s.pc i small lt e (s.pc i) refl inv.depth q;
  bounded = move-bounded c s.room i e (s.pc i) inv.bounded q;
  breaker = move-breaker c s.room s.pc i small lt e (s.pc i) refl inv.active inv.breaker q;
  tickets = λ t. move-tickets c s.room s.pc i e (s.pc i) t lt refl (inv.tickets t) q;
}

-- Every step of a goroutine keeps the invariant: the counters count, the queue is within its bound,
-- no more requests are admitted directly than MaxConcurrent, and each ticket is in one place.
pub step-Inv :
    {n : ℕ} {c : Limits} {s t : System} (i : ℕ) (e : Event)
    → n < 2 ^ 63
    → i < n
    → step c s i e ≡ some t
    → Inv n c s
    → Inv n c t
step-Inv {n} {c} {s} i e small lt q inv =
    let (o, moved, e') = step_inversion c s i e q in
    subst (Inv n c) (sym e') (move-Inv i e small lt inv moved)

-- The invariant holds in every state that the requests can reach.
pub Reach-Inv :
    {n : ℕ} {c : Limits} {s : System}
    → n < 2 ^ 63
    → pos 0 ≤ℤ c.max_concurrent
    → Reach n c s
    → Inv n c s
Reach-Inv {n} {c} small h (start e) = subst (Inv n c) (sym e) (init-Inv n c h)
Reach-Inv small h (later i e lt q r) = step-Inv i e small lt q (Reach-Inv small h r)

-- Who is not among the first `n` has not moved.
pub Reach-idle :
    {n : ℕ} {c : Limits} {s : System} → Reach n c s → (i : ℕ) → n ≤ i → s.pc i ≡ arriving
unfolding init
Reach-idle (start e) i h = ground arith
Reach-idle {n} {c} (later {s} j e lt q r) i h =
    let (o, moved, e') = step_inversion c s j e q in ground (arith, Reach-idle r i h)
