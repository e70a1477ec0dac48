-- ===== src/WaitingRoom/Order.antt =====
-- waitingroom/waitingroom.go: the queue is first in, first out.
use peakshield.Prelude.{ℕ, suc, ◌≤◌, ◌<◌, ◌≡◌, ◌⊎◌, List, [], ◌∷◌, count, ◌==◌, if◌then◌else◌}
use peakshield.WaitingRoom.Room.{Room}
use peakshield.WaitingRoom.System.{System}

-- How many tickets stand in front of ticket `t`.
abbrev ahead : ℕ → List ℕ → ℕ
ahead t [] = 0
ahead t (x ∷ q) = if x == t then 0 else suc (ahead t q)

-- The queue of `u` comes from that of `s` by a move that does not pass ticket `t` over.
abbrev pub InOrder : ℕ → List ℕ → List ℕ → Type 0
InOrder t before now =
    ((ahead t before ≡ 0) × (count t now ≡ 0))
    ⊎ ((0 < count t now) × (ahead t now ≤ ahead t before))
