-- ===== src/WaitingRoom/Invariant/Defs.antt =====
-- waitingroom/waitingroom.go: what each place of a goroutine contributes to the counters and to
-- the tickets, and the invariant.
use peakshield.Prelude.{ℕ, ◌+◌, ◌≤◌, ◌≡◌, length, count, ◌==◌, if◌then◌else◌}
use peakshield.Prelude.Int.{pos, ◌≤ℤ◌}
use peakshield.Prelude.Family.{sum_below}
use peakshield.WaitingRoom.Room.{Room, Limits}
use peakshield.WaitingRoom.Goroutine.{
  Pc, overloaded, offering, turned_away, parked, woken, serving, direct, sending, draining, drained,
  expired, abandoned,
}
use peakshield.WaitingRoom.System.{System}

-- Between the increment and the decrement of activeRequests.
abbrev pub in_flight : Pc → ℕ
in_flight overloaded = 1
in_flight (serving _) = 1
in_flight _ = 0

-- In next.ServeHTTP after the optimistic admission.
abbrev pub admitted_directly : Pc → ℕ
admitted_directly (serving direct) = 1
admitted_directly _ = 0

-- Between the increment and the decrement of queueDepth.
abbrev pub in_depth : Pc → ℕ
in_depth (offering _) = 1
in_depth (turned_away _) = 1
in_depth (parked _) = 1
in_depth (woken _) = 1
in_depth draining = 1
in_depth drained = 1
in_depth expired = 1
in_depth _ = 0

-- The own ticket was sent to the queue, and nothing was received from it yet.
abbrev pub outstanding : Pc → ℕ
outstanding (parked _) = 1
outstanding draining = 1
outstanding expired = 1
outstanding abandoned = 1
outstanding _ = 0

-- Holds the ticket `t` of the queue, to signal it.
abbrev pub holds : ℕ → Pc → ℕ
holds t (sending u) = if u == t then 1 else 0
holds t _ = 0

abbrev pub buffered : ℕ → Room → ℕ
buffered t m = if m.signaled t then 1 else 0

-- The places where ticket `t` is: in the queue, in the hands of a signalling goroutine, or
-- signalled with the signal not received.
abbrev places : ℕ → ℕ → System → ℕ
places n t s = count t s.room.queue + buffered t s.room + sum_below (holds t) n s.pc

pub record Inv (n : ℕ) (c : Limits) (s : System) : Type 0 where
  pub active : s.room.active_requests ≡ pos (sum_below in_flight n s.pc)
  pub depth : s.room.queue_depth ≡ pos (sum_below in_depth n s.pc)
  pub bounded : length s.room.queue ≤ c.queue_size
  pub breaker : pos (sum_below admitted_directly n s.pc) ≤ℤ c.max_concurrent
  pub tickets : (t : ℕ) → places n t s ≡ outstanding (s.pc t)
