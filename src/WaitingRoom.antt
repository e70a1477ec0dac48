-- ===== src/WaitingRoom.antt =====
-- waitingroom/waitingroom.go: the circuit breaker and the virtual queue.
-- Room: the shared state and the slot management. Goroutine: the goroutines of Middleware and of
-- drainTicket, one shared access at a time. System: all goroutines, interleaved in any order.
pub mod Room
pub mod Goroutine
pub mod WaitPage
pub mod System
pub mod Invariant
pub mod Safety
pub mod Replies
pub mod Order
pub mod Progress
pub mod Settled
pub mod Schedules
mod Tests
