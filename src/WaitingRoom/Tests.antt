-- ===== src/WaitingRoom/Tests.antt =====
-- waitingroom/waitingroom.go: schedules that are run, and the properties at concrete inputs.
use peakshield.Prelude.{
  ℕ, zero, suc, inl, ◌+◌, ◌*◌, ◌≤◌, ◌<◌, ◌≡◌, ◌⊎◌, refl, List, [], ◌∷◌, some, true, false, length,
  count, arith,
}
use peakshield.Prelude.Int.{pos, add64, sub64, ◌≤ℤ◌}
use peakshield.Prelude.Fixed.{fixed}
use peakshield.Prelude.Family.{sum_below}
use peakshield.WaitingRoom.Room.{Limits}
use peakshield.WaitingRoom.Goroutine.{
  Reply, Event, go, timer, parked, done, abandoned, timeout_page,
}
use peakshield.WaitingRoom.System.{System, init, later, step, run}
use peakshield.WaitingRoom.Schedules.{run-init-Reach}
use peakshield.WaitingRoom.Invariant.{
  in_flight, in_depth, outstanding, holds, Inv, Reach-Inv, step-Inv,
}
use peakshield.WaitingRoom.WaitPage.Estimate.{
  waves, max_conc, average_service, estimate_wait, estimate_wait_mono,
}
use peakshield.WaitingRoom.Safety.{counters_exact, ticket_unique, send_never_blocks, all_returned}
use peakshield.WaitingRoom.Replies.{
  is_settled, answered, as_list, given, happened, reason, settled_once, reply_final,
}
use peakshield.WaitingRoom.Settled.{Settled, can_settle}
use peakshield.WaitingRoom.Progress.{accesses, accesses_of, accesses-le, own_event, never_stuck}

-- MaxConcurrent 1, QueueSize 1.
abbrev narrow : Limits
narrow = record { max_concurrent = pos 1; queue_size = 1 }

-- Request 0 is served while request 1 joins the queue.
abbrev one_waits : List (ℕ × Event)
one_waits = (0, go) ∷ (1, go) ∷ (1, go) ∷ (1, go) ∷ (1, go) ∷ []

one_waits_state : (run 2 narrow init one_waits).pc 1 ≡ parked (pos 1)
unfolding run init add64
one_waits_state = refl

-- Request 0 returns and signals request 1; before that claims its slot, request 2 takes the slot on
-- the direct path: two requests are in flight at MaxConcurrent 1.
abbrev overtaking : List (ℕ × Event)
overtaking =
    (0, go)
    ∷ (1, go)
    ∷ (1, go)
    ∷ (1, go)
    ∷ (1, go)
    ∷ (0, go)
    ∷ (0, go)
    ∷ (0, go)
    ∷ (1, go)
    ∷ (1, go)
    ∷ (1, go)
    ∷ (2, go)
    ∷ (1, go)
    ∷ []

two_in_flight : (run 3 narrow init overtaking).room.active_requests ≡ pos 2
unfolding run init add64
two_in_flight = refl

-- Request 1 sees the backend full; request 0 returns and finds the queue empty; only then does
-- request 1 join the queue. It is parked, and nothing is in flight that could signal it.
abbrev stranding : List (ℕ × Event)
stranding = (0, go) ∷ (1, go) ∷ (0, go) ∷ (1, go) ∷ (0, go) ∷ (1, go) ∷ (1, go) ∷ []

stranded :
    ((run 2 narrow init stranding).pc 1 ≡ parked (pos 1))
    × ((run 2 narrow init stranding).pc 0 ≡ done)
    × ((run 2 narrow init stranding).room.active_requests ≡ pos 0)
unfolding run init add64
stranded = (refl, refl, refl)

abbrev waiting : System
waiting = run 2 narrow init one_waits

abbrev crossed : System
crossed = run 3 narrow init overtaking

-- Request 0 has released its slot, and is about to look at the queue.
abbrev released : List (ℕ × Event)
released = (0, go) ∷ (1, go) ∷ (1, go) ∷ (1, go) ∷ (1, go) ∷ (0, go) ∷ []

-- Request 0 has returned from the backend and holds the ticket of request 1.
abbrev signals : List (ℕ × Event)
signals = (0, go) ∷ (1, go) ∷ (1, go) ∷ (1, go) ∷ (1, go) ∷ (0, go) ∷ (0, go) ∷ []

-- Request 1 times out in the queue; its ticket is drained when request 0 returns.
abbrev timed_out : List (ℕ × Event)
timed_out =
    (0, go)
    ∷ (1, go)
    ∷ (1, go)
    ∷ (1, go)
    ∷ (1, go)
    ∷ (1, timer)
    ∷ (0, go)
    ∷ (0, go)
    ∷ (0, go)
    ∷ (1, go)
    ∷ (1, go)
    ∷ (1, go)
    ∷ []

both_done : (i : ℕ) → i < 2 → (run 2 narrow init timed_out).pc i ≡ done
unfolding run init add64
both_done zero h = refl
both_done (suc zero) h = refl
both_done (suc (suc i)) h = absurd (omega arith)

counters_exact_example :
    (crossed.room.active_requests ≡ pos (sum_below in_flight 3 crossed.pc))
    × (crossed.room.queue_depth ≡ pos (sum_below in_depth 3 crossed.pc))
counters_exact_example =
    counters_exact (omega arith) (omega arith) (run-init-Reach 3 narrow overtaking)

ticket_unique_example :
    (count 1 waiting.room.queue ≡ 1)
    × (waiting.room.signaled 1 ≡ false)
    × (sum_below (holds 1) 2 waiting.pc ≡ 0)
    × (outstanding (waiting.pc 1) ≡ 1)
unfolding run init add64
ticket_unique_example =
    ticket_unique (omega arith) (omega arith) (run-init-Reach 2 narrow one_waits) 1 (omega arith)

send_never_blocks_example :
    (u : System) × (step narrow (run 2 narrow init signals) 0 go ≡ some u)
    × (u.room.signaled 1 ≡ true)
    × (u.pc 0 ≡ done)
unfolding run init add64
send_never_blocks_example =
    send_never_blocks (omega arith) (omega arith) (run-init-Reach 2 narrow signals) 0 1
      (omega arith) refl

all_returned_example :
    ((run 2 narrow init timed_out).room.active_requests ≡ pos 0)
    × ((run 2 narrow init timed_out).room.queue_depth ≡ pos 0)
    × ((count 1 (run 2 narrow init timed_out).room.queue ≡ 0)
        ⊎ ((run 2 narrow init timed_out).pc 1 ≡ abandoned))
all_returned_example =
    all_returned (omega arith) (omega arith) (run-init-Reach 2 narrow timed_out)
      (λ i lt. inl (both_done i lt)) 1

settled_once_example :
    (is_settled (crossed.reply 2) ≡ answered (crossed.pc 2))
    × (given (run-init-Reach 3 narrow overtaking) 2 ≡ as_list (crossed.reply 2))
    × ((a : Reply)
        → crossed.reply 2 ≡ some a
        → happened (run-init-Reach 3 narrow overtaking) 2 (reason a) ≡ true)
settled_once_example = settled_once (run-init-Reach 3 narrow overtaking) 2

abbrev before_last : List (ℕ × Event)
before_last =
    (0, go)
    ∷ (1, go)
    ∷ (1, go)
    ∷ (1, go)
    ∷ (1, go)
    ∷ (1, timer)
    ∷ (0, go)
    ∷ (0, go)
    ∷ (0, go)
    ∷ (1, go)
    ∷ (1, go)
    ∷ []

last_step : step narrow (run 2 narrow init before_last) 1 go ≡ some (run 2 narrow init timed_out)
unfolding run init add64
last_step = refl

reply_final_example :
    ((run 2 narrow init timed_out).reply 1 ≡ some (timeout_page (pos 1)))
    × (given (later 1 go (omega arith) last_step (run-init-Reach 2 narrow before_last)) 1
        ≡ given (run-init-Reach 2 narrow before_last) 1)
reply_final_example =
    reply_final (run-init-Reach 2 narrow before_last) 1 1 go (omega arith) last_step
      (unfold run init add64 in refl)

accesses-le_example :
    ((i : ℕ) → accesses_of (run-init-Reach 2 narrow timed_out) i ≤ 11)
    × (accesses (run-init-Reach 2 narrow timed_out) ≤ 11 * 2)
accesses-le_example = accesses-le (run-init-Reach 2 narrow timed_out)

never_stuck_example : (u : System) × (step narrow waiting 1 (own_event (waiting.pc 1)) ≡ some u)
unfolding run init add64
never_stuck_example =
    never_stuck (omega arith) (omega arith) (run-init-Reach 2 narrow one_waits) 1 (omega arith)
      (λ e. cc) (λ e. cc)

step-Inv_example : Inv 2 narrow (run 2 narrow init signals)
unfolding run init add64
step-Inv_example =
    step-Inv 0 go (omega arith) (omega arith) refl
      (Reach-Inv (omega arith) (omega arith) (run-init-Reach 2 narrow released))

estimate_wait_mono_example :
    estimate_wait fixed (pos 50) (pos 15_000_000_000) (pos 7)
    ≤ℤ estimate_wait fixed (pos 50) (pos 15_000_000_000) (pos 60)
unfolding waves max_conc average_service add64 sub64
estimate_wait_mono_example =
    estimate_wait_mono fixed (pos 50) 15_000_000_000 7 60 (omega arith) (omega arith) refl

can_settle_example :
    (es : List (ℕ × Event)) × (accesses (run-init-Reach 2 narrow one_waits) + length es ≤ 11 * 2)
    × Settled 2 (run 2 narrow waiting es)
can_settle_example = can_settle (omega arith) (omega arith) (run-init-Reach 2 narrow one_waits)
