-- ===== src/WaitingRoom/System.antt =====
-- waitingroom/waitingroom.go: `n` requests over one WaitingRoom, interleaved in any order.
use peakshield.Prelude.{ℕ, ◌<◌, ◌≡◌, Option, none, some, List, [], ◌∷◌, ltb, if◌then◌else◌}
use peakshield.Prelude.Family.{put}
use peakshield.WaitingRoom.Room.{Room, Limits, new}
use peakshield.WaitingRoom.Goroutine.{Pc, arriving, Reply, Event, Outcome, move}

pub record System : Type 0 where
  pub room : Room
  pub pc : ℕ → Pc
  pub reply : ℕ → Option Reply  -- what the client of each request has got

unfoldable pub init : System
unfolding new
init = record { room = new; pc = λ _. arriving; reply = λ _. none }

-- A reply that was given stays.
abbrev pub keep_reply : Option Reply → Option Reply → Option Reply
keep_reply none old = old
keep_reply (some r) old = some r

abbrev pub after : System → ℕ → Outcome → System
after s i o = record {
  room = o.room;
  pc = put s.pc i o.next;
  reply = put s.reply i (keep_reply o.reply (s.reply i));
}

-- Goroutine `i` makes its next move.
unfoldable pub step : Limits → System → ℕ → Event → Option System
unfolding move
step c s i e = elim (move c i s.room e (s.pc i)) [ none ↦ none | some o ↦ some (after s i o) ]

-- The states that the first `n` requests can reach. Nothing moves from `n` on.
pub data Reach (n : ℕ) (c : Limits) : System → Type 0 where
  start : {s : System} → s ≡ init → Reach n c s
  later :
      {s t : System} (i : ℕ) (e : Event) → i < n → step c s i e ≡ some t → Reach n c s → Reach n c t

-- A turn that is not possible, or not of one of the first `n`, is passed over.
unfoldable pub turn : ℕ → Limits → System → ℕ → Event → System
unfolding step
turn n c s i e = if ltb i n then elim (step c s i e) [ none ↦ s | some t ↦ t ] else s

-- A schedule: who moves, and on which event.
unfoldable pub run : ℕ → Limits → System → List (ℕ × Event) → System
unfolding turn
run n c s [] = s
run n c s ((i, e) ∷ rest) = run n c (turn n c s i e) rest
