-- ===== src/WaitingRoom/WaitPage/Estimate.antt =====
-- waitingroom/waitingroom.go: estimateWait.
use peakshield.Prelude.{
  ℕ, zero, suc, ◌+◌, ◌-◌, ◌*◌, ◌/◌, ◌%◌, ◌^◌, ◌≤◌, ◌<◌, ◌≡◌, true, false, if◌then◌else◌, arith,
}
use native.Mathlib.Nat.{add-div_right, div-mul-le_self, lt-div-mul-add}
use peakshield.Prelude.Int.{
  add64_pos, sub64_pos, ℤ, pos, negsuc, pos_part, sub_ℕ, leb_ℤ, ltb_ℤ, ◌≤ℤ◌, add64, sub64,
}
use peakshield.Prelude.Float.{Float64}

-- Go's `/` and `%` by a divisor above zero: both cut off towards zero.
abbrev quot : ℤ → ℕ → ℤ
quot (pos n) d = pos (n / d)
quot (negsuc n) d = sub_ℕ 0 (suc n / d)

abbrev rem : ℤ → ℕ → ℤ
rem (pos n) d = pos (n % d)
rem (negsuc n) d = sub_ℕ 0 (suc n % d)

-- time.Second, in nanoseconds
abbrev second : ℕ
second = 1_000_000_000

-- The guard against a division by zero: MaxConcurrent, or 1 where it is not above zero.
unfoldable pub max_conc : ℤ → ℕ
max_conc m = if leb_ℤ m (pos 0) then 1 else pos_part m

-- (pos + maxConc - 1) / maxConc
unfoldable pub waves : ℤ → ℕ → ℤ
waves position m = quot (sub64 (add64 position (pos m)) (pos 1)) m

module _ (float : Float64) where
  open float use {Real, of_int, to_int, add, mul, div}

  -- time.Duration's Seconds()
  unfoldable pub seconds : ℤ → Real
  seconds d = add (of_int (quot d second)) (div (of_int (rem d second)) (of_int (pos second)))

  -- BackendTimeout.Seconds() / 3.0
  unfoldable pub average_service : ℤ → Real
  unfolding seconds
  average_service backend_timeout = div (seconds backend_timeout) (of_int (pos 3))

  -- At MaxConcurrent and BackendTimeout.
  unfoldable pub estimate_wait : ℤ → ℤ → ℤ → ℤ
  unfolding max_conc waves average_service
  estimate_wait max_concurrent backend_timeout position =
      if leb_ℤ position (pos 0)
      then pos 5
      else let estimated = to_int (
          mul (of_int (waves position (max_conc max_concurrent)))
            (average_service backend_timeout)) in
        if ltb_ℤ estimated (pos 5) then pos 5 else estimated

module _ (float : Float64) where
  open float use {Real, of_int, to_int, add, mul, div, le, lt}

  -- The estimate is at least 5 seconds, for every position and every configuration.
  estimate_wait_min : (m t position : ℤ) → pos 5 ≤ℤ estimate_wait float m t position
  unfolding estimate_wait
  estimate_wait_min m t position = ground arith

quotient_step : (p m : ℕ) → 0 < p → 0 < m → (p + m - 1) / m ≡ suc ((p - 1) / m)
quotient_step p m hp hm =
    let e : p + m - 1 ≡ (p - 1) + m = omega arith in rw (e, add-div_right (p - 1) hm) (omega arith)

waves_lem : (p m : ℕ) → 0 < p → 0 < m → p + m < 2 ^ 63 → waves (pos p) m ≡ pos (suc ((p - 1) / m))
unfolding waves
waves_lem p m hp hm fits =
    rw (add64_pos p m fits, sub64_pos (p + m) 1 (omega arith) fits, quotient_step p m hp hm)

-- For a position p of the queue the number of waves is p / MaxConcurrent rounded up: with so many
-- waves of MaxConcurrent completions the position is reached, and with one less it is not.
waves_ceil :
    (p m : ℕ)
    → 0 < p
    → 0 < m
    → p + m < 2 ^ 63
    → (k : ℕ) × (waves (pos p) m ≡ pos (suc k)) × (k * m < p) × (p ≤ suc k * m)
waves_ceil p m hp hm fits = (
  (p - 1) / m,
  waves_lem p m hp hm fits,
  omega (arith, div-mul-le_self (p - 1) m),
  omega (arith, lt-div-mul-add {a = p - 1} hm),
)

max_conc_pos : (m : ℤ) → 0 < max_conc m
unfolding max_conc
max_conc_pos (pos n) = ground arith
max_conc_pos (negsuc n) = ground arith

quotient_mono : (p q m : ℕ) → p ≤ q → p / m ≤ q / m
quotient_mono p q m h = grind arith

above_zero : (p : ℕ) → leb_ℤ (pos (suc p)) (pos 0) ≡ false
above_zero p = ground arith

clamp_mono :
    (x y : ℤ)
    → x ≤ℤ y
    → (if ltb_ℤ x (pos 5) then pos 5 else x) ≤ℤ (if ltb_ℤ y (pos 5) then pos 5 else y)
clamp_mono x y h = ground arith

module _ (float : Float64) where
  open float use {
    of_int, to_int, mul, le, lt, add_nonneg, div_nonneg, of_int_mono, scale_nonneg, scale_mono,
    to_int_mono,
  }

  average_service_nonneg : (t : ℕ) → le (of_int (pos 0)) (average_service float (pos t)) ≡ true
  unfolding average_service
  average_service_nonneg t = div_nonneg _ 2 (
      add_nonneg _ _ (of_int_mono _ _ (omega arith))
        (div_nonneg _ 999_999_999 (of_int_mono _ _ (omega arith))))

  -- Of two positions that are not negative the one further back has no shorter estimate, for a
  -- BackendTimeout that is not negative, where the position and MaxConcurrent (1 for one that is not
  -- above zero) add up to less than 2^63, and the estimate for that position, before it is cut to a
  -- whole number, is below 2^63.
  pub estimate_wait_mono :
      (m : ℤ) (t p q : ℕ)
      → p ≤ q
      → q + max_conc m < 2 ^ 63
      → lt
          (mul (of_int (waves (pos q) (max_conc m))) (average_service float (pos t)))
          (of_int (pos (2 ^ 63)))
        ≡ true
      → estimate_wait float m (pos t) (pos p) ≤ℤ estimate_wait float m (pos t) (pos q)
  unfolding estimate_wait
  estimate_wait_mono m t zero q h fits range = estimate_wait_min float m (pos t) (pos q)
  estimate_wait_mono m t (suc p) zero h fits range = absurd (omega arith)
  estimate_wait_mono m t (suc p) (suc q) h fits range =
      rw
        (
          waves_lem (suc p) (max_conc m) (omega arith) (max_conc_pos m) (omega arith),
          at_q,
          above_zero p,
          above_zero q,
        )
        (clamp_mono (result ((suc p - 1) / max_conc m)) (result ((suc q - 1) / max_conc m)) (
          to_int_mono _ _ (scale_nonneg _ _ nonneg)
            (scale_mono _ _ _ (quotient_mono (suc p - 1) (suc q - 1) (max_conc m) (omega arith))
              nonneg)
            (rw at_q at range)))
    where
      result : ℕ → ℤ
      result k = to_int (mul (of_int (pos (suc k))) (average_service float (pos t)))

      at_q : waves (pos (suc q)) (max_conc m) ≡ pos (suc ((suc q - 1) / max_conc m))
      at_q = waves_lem (suc q) (max_conc m) (omega arith) (max_conc_pos m) fits

      nonneg : le (of_int (pos 0)) (average_service float (pos t)) ≡ true
      nonneg = average_service_nonneg t
