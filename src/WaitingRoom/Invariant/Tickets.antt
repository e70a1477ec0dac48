-- ===== src/WaitingRoom/Invariant/Tickets.antt =====
-- waitingroom/waitingroom.go: a move of goroutine `i` keeps the queue within its capacity, and
-- every ticket in one place until its owner receives from it.
use peakshield.Prelude.{
  ℕ, ◌+◌, ◌≤◌, ◌<◌, ◌≡◌, some, length, length-append, count, count-append, [], ◌∷◌, arith,
}
use peakshield.Prelude.Family.{put, sum_below, sum_below-put, weight-le-sum_below}
use peakshield.WaitingRoom.Room.{Room, Limits}
use peakshield.WaitingRoom.Goroutine.{Pc, Event, Outcome, move}
use peakshield.WaitingRoom.Invariant.Defs.{outstanding, holds, buffered}

pub move-bounded :
    (c : Limits) (m : Room) (i : ℕ) (e : Event) (p : Pc) {o : Outcome}
    → length m.queue ≤ c.queue_size
    → move c i m e p ≡ some o
    → length o.room.queue ≤ c.queue_size
unfolding move
move-bounded c m i e p h q = ground (arith, length-append m.queue (i ∷ []))

pub move-tickets :
    {n : ℕ} (c : Limits) (m : Room) (pc : ℕ → Pc) (i : ℕ) (e : Event) (p : Pc) {o : Outcome} (t : ℕ)
    → i < n
    → pc i ≡ p
    → count t m.queue + buffered t m + sum_below (holds t) n pc ≡ outstanding (pc t)
    → move c i m e p ≡ some o
    → count t o.room.queue + buffered t o.room + sum_below (holds t) n (put pc i o.next)
      ≡ outstanding (put pc i o.next t)
unfolding move
move-tickets {n} c m pc i e p {o} t lt at h q = ground (
  arith,
  count-append t m.queue (i ∷ []),
  sum_below-put (holds t) n pc i o.next lt,
  weight-le-sum_below (holds t) n pc i lt,
)
