-- ===== src/WaitingRoom/Room.antt =====
-- waitingroom/waitingroom.go: the struct WaitingRoom and the accesses to it, each one atomic.
-- The ticket of a goroutine is named by the goroutine's number.
use peakshield.Prelude.{
  ℕ, Bool, true, false, List, [], ◌∷◌, ◌++◌, Option, none, some, ltb, length, if◌then◌else◌,
}
use peakshield.Prelude.Int.{ℤ, pos, add64}
use peakshield.Prelude.Family.{put}

-- The fields of config.Config that the queue reads: MaxConcurrent and QueueSize.
pub record Limits : Type 0 where
  pub max_concurrent : ℤ
  pub queue_size : ℕ

pub record Room : Type 0 where
  pub active_requests : ℤ  -- int64
  pub queue_depth : ℤ  -- int64
  pub queue : List ℕ  -- the oldest ticket first
  pub signaled : ℕ → Bool  -- the one-place buffer of each ticket

-- New
unfoldable pub new : Room
new = record { active_requests = pos 0; queue_depth = pos 0; queue = []; signaled = λ _. false }

-- atomic.AddInt64(&wr.activeRequests, d)
unfoldable pub add_active : ℤ → Room → Room
add_active d m = record m { active_requests = add64 m.active_requests d }

-- atomic.AddInt64(&wr.queueDepth, d)
unfoldable pub add_depth : ℤ → Room → Room
add_depth d m = record m { queue_depth = add64 m.queue_depth d }

-- select { case wr.queue <- ticket: default: }, with `none` for the default
unfoldable pub enqueue : Limits → ℕ → Room → Option Room
enqueue c ticket m =
    if ltb (length m.queue) c.queue_size
    then some (record m { queue = m.queue ++ ticket ∷ [] })
    else none

-- select { case ticket := <-wr.queue: default: }, with `none` for the default
unfoldable pub dequeue : Room → Option (ℕ × Room)
dequeue m = elim m.queue [ [] ↦ none | ticket ∷ rest ↦ some (ticket, record m { queue = rest }) ]

-- ticket <- struct{}{}, with `none` where the send would block
unfoldable pub send : ℕ → Room → Option Room
send ticket m =
    if m.signaled ticket then none else some (record m { signaled = put m.signaled ticket true })

-- case <-ticket, with `none` where there is nothing to receive
unfoldable pub receive : ℕ → Room → Option Room
receive ticket m =
    if m.signaled ticket then some (record m { signaled = put m.signaled ticket false }) else none

-- Stats
pub record Stats : Type 0 where
  pub active_requests : ℤ
  pub queue_depth : ℤ
  pub max_concurrent : ℤ
  pub queue_capacity : ℕ

-- ActiveRequests
unfoldable pub get_active_requests : Room → ℤ
get_active_requests m = m.active_requests

-- QueueDepth
unfoldable pub get_queue_depth : Room → ℤ
get_queue_depth m = m.queue_depth

-- GetStats, with nobody between its two loads
unfoldable pub get_stats : Limits → Room → Stats
get_stats c m = record {
  active_requests = m.active_requests;
  queue_depth = m.queue_depth;
  max_concurrent = c.max_concurrent;
  queue_capacity = c.queue_size;
}
