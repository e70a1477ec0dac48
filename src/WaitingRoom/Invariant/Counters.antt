-- ===== src/WaitingRoom/Invariant/Counters.antt =====
-- waitingroom/waitingroom.go: a move of goroutine `i` keeps the two counters exact, and the
-- optimistic admission within MaxConcurrent.
use peakshield.Prelude.{ℕ, ◌^◌, ◌<◌, ◌≡◌, some, arith}
use peakshield.Prelude.Int.{pos, add64_one, add64_minus_one, ◌≤ℤ◌}
use peakshield.Prelude.Family.{put, sum_below, sum_below-put, sum_below-le, sum_below_mono}
use peakshield.WaitingRoom.Room.{Room, Limits}
use peakshield.WaitingRoom.Goroutine.{Pc, Event, Outcome, move}
use peakshield.WaitingRoom.Invariant.Defs.{in_flight, in_depth, admitted_directly}

module _ {n : ℕ} (c : Limits) (m : Room) (pc : ℕ → Pc) (i : ℕ) (small : n < 2 ^ 63)
    (lt : i < n) where
  pub move-active :
      (e : Event) (p : Pc) {o : Outcome}
      → pc i ≡ p
      → m.active_requests ≡ pos (sum_below in_flight n pc)
      → move c i m e p ≡ some o
      → o.room.active_requests ≡ pos (sum_below in_flight n (put pc i o.next))
  unfolding move
  move-active e p {o} at h q = ground (
    arith,
    add64_one (sum_below in_flight n pc),
    add64_minus_one (sum_below in_flight n (put pc i o.next)),
    sum_below-put in_flight n pc i o.next lt,
    sum_below-le in_flight (λ a. ground arith) n (put pc i o.next),
    sum_below-le in_flight (λ a. ground arith) n pc,
  )

  pub move-depth :
      (e : Event) (p : Pc) {o : Outcome}
      → pc i ≡ p
      → m.queue_depth ≡ pos (sum_below in_depth n pc)
      → move c i m e p ≡ some o
      → o.room.queue_depth ≡ pos (sum_below in_depth n (put pc i o.next))
  unfolding move
  move-depth e p {o} at h q = ground (
    arith,
    add64_one (sum_below in_depth n pc),
    add64_minus_one (sum_below in_depth n (put pc i o.next)),
    sum_below-put in_depth n pc i o.next lt,
    sum_below-le in_depth (λ a. ground arith) n (put pc i o.next),
    sum_below-le in_depth (λ a. ground arith) n pc,
  )

  -- Only the optimistic admission adds to the requests that it let through, and it looks first.
  pub move-breaker :
      (e : Event) (p : Pc) {o : Outcome}
      → pc i ≡ p
      → m.active_requests ≡ pos (sum_below in_flight n pc)
      → pos (sum_below admitted_directly n pc) ≤ℤ c.max_concurrent
      → move c i m e p ≡ some o
      → pos (sum_below admitted_directly n (put pc i o.next)) ≤ℤ c.max_concurrent
  unfolding move
  move-breaker e p {o} at h b q = ground (
    arith,
    add64_one (sum_below in_flight n pc),
    sum_below-put in_flight n pc i o.next lt,
    sum_below-put admitted_directly n pc i o.next lt,
    sum_below-le in_flight (λ a. ground arith) n (put pc i o.next),
    sum_below_mono admitted_directly in_flight (λ a. ground arith) n pc,
  )
