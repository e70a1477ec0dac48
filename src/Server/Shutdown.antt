-- ===== src/Server/Shutdown.antt =====
-- main.go: main from the termination signal to its return. Shutdown of each server runs in a
-- goroutine of its own, and main waits for both at a WaitGroup.
use peakshield.Prelude.{
  ℕ, ◌+◌, ◌-◌, ◌≡◌, refl, Bool, true, false, ◌&&◌, Option, none, some, List, [], ◌∷◌, ◌++◌, arith,
  ◌==◌, if◌then◌else◌,
}

pub data Line : Type 0 where
  signal_received : Line
  proxy_failed : Line
  metrics_failed : Line
  exited_safely : Line

-- A goroutine returns from Shutdown, with an error or without, or main goes on at wg.Wait().
pub data Event : Type 0 where
  proxy_shut : (failed : Bool) → Event
  metrics_shut : (failed : Bool) → Event
  waited : Event

pub record Closing : Type 0 where
  pub proxy_open : Bool  -- the goroutine of proxyServer.Shutdown has not returned
  pub metrics_open : Bool
  pub wg : ℕ
  pub running : Bool  -- main has not returned
  pub log : List Line

-- after wg.Add(2) and the two go statements
unfoldable pub closing : Closing
closing = record {
  proxy_open = true;
  metrics_open = true;
  wg = 2;
  running = true;
  log = signal_received ∷ [];
}

abbrev log_if : Bool → Line → List Line → List Line
log_if failed line log = if failed then log ++ line ∷ [] else log

-- `none` for an event that is not possible.
unfoldable pub step : Closing → Event → Option Closing
step c (proxy_shut failed) =
    if c.proxy_open && c.running
    then some
        (record c { proxy_open = false; wg = c.wg - 1; log = log_if failed proxy_failed c.log })
    else none
step c (metrics_shut failed) =
    if c.metrics_open && c.running
    then some
        (record c { metrics_open = false; wg = c.wg - 1; log = log_if failed metrics_failed c.log })
    else none
step c waited =
    if c.wg == 0 && c.running
    then some (record c { running = false; log = c.log ++ exited_safely ∷ [] })
    else none

pub data Reach : Closing → Type 0 where
  start : {c : Closing} → c ≡ closing → Reach c
  later : {c d : Closing} (e : Event) → step c e ≡ some d → Reach c → Reach d

abbrev one_if : Bool → ℕ
one_if true = 1
one_if false = 0

record Inv (c : Closing) : Type 0 where
  waits_for : c.wg ≡ one_if c.proxy_open + one_if c.metrics_open
  joined : c.running ≡ false → c.wg ≡ 0

step-Inv : (c : Closing) (e : Event) {d : Closing} → Inv c → step c e ≡ some d → Inv d
unfolding step
step-Inv c (proxy_shut failed) inv h = ground arith
step-Inv c (metrics_shut failed) inv h = ground arith
step-Inv c waited inv h = ground arith

Reach-Inv : {c : Closing} → Reach c → Inv c
unfolding closing
Reach-Inv (start e) = rw e (record { waits_for = refl; joined = λ h. cc })
Reach-Inv (later {c} e h r) = step-Inv c e (Reach-Inv r) h

ended : (c : Closing) → c.running ≡ false → (e : Event) → step c e ≡ none
unfolding step
ended c stopped (proxy_shut failed) = ground arith
ended c stopped (metrics_shut failed) = ground arith
ended c stopped waited = ground arith

-- main returns only when both servers have returned from Shutdown, with or without an error, and
-- then nothing more happens.
exit_lem :
    {c : Closing}
    → Reach c
    → c.running ≡ false
    → (c.proxy_open ≡ false) × (c.metrics_open ≡ false) × ((e : Event) → step c e ≡ none)
exit_lem {c} r stopped = let inv = Reach-Inv r in (ground arith, ground arith, ended c stopped)

-- Once both calls of Shutdown have returned, main goes on, and returns.
goes_on :
    {c : Closing}
    → Reach c
    → c.running ≡ true
    → c.proxy_open ≡ false
    → c.metrics_open ≡ false
    → (d : Closing) × (step c waited ≡ some d) × (d.running ≡ false)
unfolding step
goes_on {c} r going p m =
    let inv = Reach-Inv r in
    (record c { running = false; log = c.log ++ exited_safely ∷ [] }, ground arith, refl)
