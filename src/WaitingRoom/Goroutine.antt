-- ===== src/WaitingRoom/Goroutine.antt =====
-- waitingroom/waitingroom.go: Middleware, releaseSlot, signalNext and drainTicket.
use peakshield.Prelude.{ℕ, Option, none, some, if◌then◌else◌}
use peakshield.Prelude.Int.{ℤ, pos, negsuc, leb_ℤ}
use peakshield.WaitingRoom.Room.{
  Room, Limits, add_active, add_depth, enqueue, dequeue, send, receive,
}

-- How a request reached the backend.
pub data Admission : Type 0 where
  direct queued : Admission

-- Where a goroutine stands, with the local variables that are live there. A goroutine that a
-- request's own goroutine starts as it returns takes over its number.
pub data Pc : Type 0 where
  arriving : Pc  -- before the optimistic increment
  overloaded : Pc  -- the count was above MaxConcurrent; before the increment is undone
  joining : Pc  -- before queueDepth is incremented
  offering : (position : ℤ) → Pc  -- before the send to the queue
  turned_away : (position : ℤ) → Pc  -- the queue was full; before queueDepth is decremented
  parked : (position : ℤ) → Pc  -- at the select of three events
  woken : (position : ℤ) → Pc  -- received from the ticket; before queueDepth is decremented
  checking : (position : ℤ) → Pc  -- before r.Context().Err()
  claiming : (position : ℤ) → Pc  -- before activeRequests is incremented
  serving : Admission → Pc  -- in next.ServeHTTP, and then before releaseSlot's decrement
  signalling : Pc  -- at the select of signalNext
  sending : (ticket : ℕ) → Pc  -- holds a ticket of the queue; before the send to it
  draining : Pc  -- at the select of drainTicket
  drained : Pc  -- drainTicket has received; before queueDepth is decremented
  expired : Pc  -- drainTicket's safety timeout; before queueDepth is decremented
  abandoned : Pc  -- has returned after the safety timeout
  done : Pc  -- has returned

-- What the client of a request gets to see.
pub data Reply : Type 0 where
  forwarded : Reply  -- next.ServeHTTP, on the direct path
  forwarded_late : (position : ℤ) → Reply  -- next.ServeHTTP, from the queue
  queue_full_page : (position : ℤ) → Reply
  timeout_page : (position : ℤ) → Reply
  hung_up : Reply  -- the client was gone: nothing is written

-- What the surroundings decide where the code waits or asks: the event that comes next, a timer
-- that fires, or a client that has disconnected.
pub data Event : Type 0 where
  go timer disconnect : Event

pub record Outcome : Type 0 where
  pub room : Room
  pub next : Pc
  pub reply : Option Reply

abbrev pub quiet : Room → Pc → Outcome
quiet m p = record { room = m; next = p; reply = none }

abbrev telling : Reply → Room → Pc → Outcome
telling r m p = record { room = m; next = p; reply = some r }

-- releaseSlot: the decrement, which signalNext follows.
abbrev release_slot : Room → Outcome
release_slot m = quiet (add_active (negsuc 0) m) signalling

-- The test of the optimistic admission: count <= MaxConcurrent.
unfoldable pub admit : Limits → Room → Outcome
admit c m =
    if leb_ℤ m.active_requests c.max_concurrent
    then telling forwarded m (serving direct)
    else quiet m overloaded

-- The non-blocking send of the own ticket.
unfoldable pub offer : Limits → ℕ → ℤ → Room → Outcome
unfolding enqueue
offer c i position m = elim (enqueue c i m) [
  | none ↦ quiet m (turned_away position)
  | some m' ↦ quiet m' (parked position)
]

-- signalNext: take the oldest ticket, or return.
unfoldable pub signal_next : Room → Outcome
unfolding dequeue
signal_next m = elim (dequeue m) [
  | none ↦ quiet m done
  | some (ticket, m') ↦ quiet m' (sending ticket)
]

-- The send of signalNext; `none` where it would block.
unfoldable pub pass_on : ℕ → Room → Option Outcome
unfolding send
pass_on ticket m = elim (send ticket m) [ none ↦ none | some m' ↦ some (quiet m' done) ]

-- `case <-ticket` of the goroutine `i`; `none` where this case is not ready.
unfoldable pub take_signal : ℕ → Pc → Room → Option Outcome
unfolding receive
take_signal i p m = elim (receive i m) [ none ↦ none | some m' ↦ some (quiet m' p) ]

-- The select of the parked goroutine.
unfoldable pub park : ℕ → ℤ → Room → Event → Option Outcome
unfolding take_signal
park i position m go = take_signal i (woken position) m
park i position m timer = some (telling (timeout_page position) m draining)
park i position m disconnect = some (telling hung_up m draining)

-- The safety check of a woken goroutine: Err() != nil, and `go wr.signalNext()`.
unfoldable pub check_context : ℤ → Room → Event → Option Outcome
check_context position m go = some (quiet m (claiming position))
check_context position m disconnect = some (telling hung_up m signalling)
check_context position m timer = none

-- The select of drainTicket.
unfoldable pub drain_ticket : ℕ → Room → Event → Option Outcome
unfolding take_signal
drain_ticket i m go = take_signal i drained m
drain_ticket i m timer = some (quiet m expired)
drain_ticket i m disconnect = none

-- A step that waits for nothing outside.
abbrev unasked : Event → Outcome → Option Outcome
unasked go o = some o
unasked timer o = none
unasked disconnect o = none

-- The next shared access of goroutine `i`, which stands at the given place. `none`: the event is
-- none of this place, or the goroutine is blocked or has returned.
unfoldable pub move : Limits → ℕ → Room → Event → Pc → Option Outcome
unfolding add_active add_depth admit offer signal_next pass_on park check_context drain_ticket
move c i m e arriving = unasked e (admit c (add_active (pos 1) m))
move c i m e overloaded = unasked e (quiet (add_active (negsuc 0) m) joining)
move c i m e joining =
    unasked e (let m' = add_depth (pos 1) m in quiet m' (offering m'.queue_depth))
move c i m e (offering position) = unasked e (offer c i position m)
move c i m e (turned_away position) =
    unasked e (telling (queue_full_page position) (add_depth (negsuc 0) m) done)
move c i m e (parked position) = park i position m e
move c i m e (woken position) = unasked e (quiet (add_depth (negsuc 0) m) (checking position))
move c i m e (checking position) = check_context position m e
move c i m e (claiming position) =
    unasked e (telling (forwarded_late position) (add_active (pos 1) m) (serving queued))
move c i m e (serving _) = unasked e (release_slot m)
move c i m e signalling = unasked e (signal_next m)
move c i m go (sending ticket) = pass_on ticket m
move c i m timer (sending ticket) = none
move c i m disconnect (sending ticket) = none
move c i m e draining = drain_ticket i m e
move c i m e drained = unasked e (quiet (add_depth (negsuc 0) m) signalling)
move c i m e expired = unasked e (quiet (add_depth (negsuc 0) m) abandoned)
move c i m e abandoned = none
move c i m e done = none
