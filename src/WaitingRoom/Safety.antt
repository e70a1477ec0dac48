-- ===== src/WaitingRoom/Safety.antt =====
-- waitingroom/waitingroom.go: what holds in every state that the requests can reach.
use peakshield.Prelude.{ℕ, ◌^◌, ◌≤◌, ◌<◌, ◌≡◌, ◌⊎◌, some, true, false, length, count, arith}
use native.Mathlib.Decide.{dec_lt}
use peakshield.Prelude.Int.{pos, ◌≤ℤ◌}
use peakshield.Prelude.Family.{put, sum_below, sum_below-eq_zero, weight-le-sum_below}
use peakshield.WaitingRoom.Room.{Limits}
use peakshield.WaitingRoom.Goroutine.{sending, abandoned, done, quiet, go, move}
use peakshield.WaitingRoom.System.{System, after, step, Reach}
use peakshield.WaitingRoom.Invariant.{
  in_flight, in_depth, admitted_directly, outstanding, holds, Inv, Reach-Inv, Reach-idle,
}

module _ {n : ℕ} {c : Limits} {s : System} (small : n < 2 ^ 63)
    (breaker : pos 0 ≤ℤ c.max_concurrent) (r : Reach n c s) where
  -- For fewer than 2^63 requests and a MaxConcurrent that is not negative: activeRequests and
  -- queueDepth are at all times the numbers of the goroutines that stand between their increment
  -- and their decrement, so neither wraps around or falls below zero.
  pub counters_exact :
      (s.room.active_requests ≡ pos (sum_below in_flight n s.pc))
      × (s.room.queue_depth ≡ pos (sum_below in_depth n s.pc))
  counters_exact = let inv = Reach-Inv small breaker r in (inv.active, inv.depth)

  -- For fewer than 2^63 requests and a MaxConcurrent that is not negative: the requests in flight
  -- that took the direct path are never more than MaxConcurrent.
  pub direct_path_bounded : pos (sum_below admitted_directly n s.pc) ≤ℤ c.max_concurrent
  direct_path_bounded = (Reach-Inv small breaker r).breaker

  -- For fewer than 2^63 requests and a MaxConcurrent that is not negative: the queue never holds
  -- more tickets than QueueSize.
  pub queue_bounded : length s.room.queue ≤ c.queue_size
  queue_bounded = (Reach-Inv small breaker r).bounded

  -- For fewer than 2^63 requests and a MaxConcurrent that is not negative: a ticket stands in the
  -- queue at most once. While it does, nothing was sent to it, nobody else holds it, and its owner
  -- has not received from it.
  pub ticket_unique :
      (t : ℕ)
      → 0 < count t s.room.queue
      → (count t s.room.queue ≡ 1)
        × (s.room.signaled t ≡ false)
        × (sum_below (holds t) n s.pc ≡ 0)
        × (outstanding (s.pc t) ≡ 1)
  ticket_unique t q = ground (arith, (Reach-Inv small breaker r).tickets t)

  -- For fewer than 2^63 requests and a MaxConcurrent that is not negative: the send of signalNext
  -- never blocks. Whoever holds a ticket of the queue can signal it at once, and then returns with
  -- the signal in the ticket's buffer, of which the code makes one for each ticket.
  pub send_never_blocks :
      (i t : ℕ)
      → i < n
      → s.pc i ≡ sending t
      → (u : System) × (step c s i go ≡ some u) × (u.room.signaled t ≡ true) × (u.pc i ≡ done)
  unfolding step move
  send_never_blocks i t lt at =
      let full = (Reach-Inv small breaker r).tickets t in
      let free : s.room.signaled t ≡ false =
        ground (arith, full, weight-le-sum_below (holds t) n s.pc i lt) in
      (
        after s i (quiet (record s.room { signaled = put s.room.signaled t true }) done),
        ground arith,
        ground arith,
        ground arith,
      )

  -- For fewer than 2^63 requests and a MaxConcurrent that is not negative: when all requests have
  -- returned, both counters are back at zero, and a ticket that is left in the queue is one that
  -- drainTicket gave up after its safety timeout.
  pub all_returned :
      ((i : ℕ) → i < n → (s.pc i ≡ done) ⊎ (s.pc i ≡ abandoned))
      → (t : ℕ)
      → (s.room.active_requests ≡ pos 0)
        × (s.room.queue_depth ≡ pos 0)
        × ((count t s.room.queue ≡ 0) ⊎ (s.pc t ≡ abandoned))
  all_returned h t = (
    ground (arith, inv.active, sum_below-eq_zero in_flight n s.pc (λ i lt. ground (arith, h i lt))),
    ground (arith, inv.depth, sum_below-eq_zero in_depth n s.pc (λ i lt. ground (arith, h i lt))),
    elim (dec_lt t n) [
      | yes lt ↦ ground (arith, inv.tickets t, h t lt)
      | no ge ↦ ground (arith, inv.tickets t, Reach-idle r t (omega arith))
    ],
  )
    where
      inv : Inv n c s
      inv = Reach-Inv small breaker r
