-- ===== src/WaitingRoom/Schedules.antt =====
-- waitingroom/waitingroom.go: every schedule leads to a state that the requests can reach.
use peakshield.Prelude.{ℕ, refl, List, [], ◌∷◌, inl, inr, Option-cases, ltb→lt, Bool-cases, ltb}
use peakshield.WaitingRoom.Room.{Limits}
use peakshield.WaitingRoom.Goroutine.{Event}
use peakshield.WaitingRoom.System.{System, init, step, turn, run, Reach, start, later}

turn-Reach :
    {n : ℕ} {c : Limits} {s : System} (i : ℕ) (e : Event) → Reach n c s → Reach n c (turn n c s i e)
unfolding turn
turn-Reach {n} {c} {s} i e r = elim (Bool-cases (ltb i n)) [
  | inr outside ↦ rw outside r
  | inl inside ↦ elim (Option-cases (step c s i e)) [
    | inl blocked ↦ rw (inside, blocked) r
    | inr (t, q) ↦ rw (inside, q) (later i e (ltb→lt i n inside) q r)
  ]
]

run-Reach :
    {n : ℕ} {c : Limits} (es : List (ℕ × Event)) (s : System)
    → Reach n c s
    → Reach n c (run n c s es)
unfolding run
run-Reach [] s r = r
run-Reach {n} {c} ((i, e) ∷ es) s r = run-Reach es (turn n c s i e) (turn-Reach i e r)

pub run-init-Reach : (n : ℕ) (c : Limits) (es : List (ℕ × Event)) → Reach n c (run n c init es)
run-init-Reach n c es = run-Reach es init (start refl)
