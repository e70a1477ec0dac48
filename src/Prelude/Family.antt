-- ===== src/Prelude/Family.antt =====
-- Families over the natural numbers (one entry for each goroutine): a write at one index, and the
-- sum of a weight over the entries below a bound.
use Prim.Native.Nat.{ℕ, zero, suc, ◌+◌, ◌≤◌, ◌<◌}
use mathlib.Core.Path.{◌≡◌, refl}
use native.Mathlib.Omega.{arith}
use peakshield.Prelude.Tests.{◌==◌, if◌then◌else◌}

abbrev pub put {ℓ} : {A : Type ℓ} → (ℕ → A) → ℕ → A → ℕ → A
put f i a j = if j == i then a else f j

module _ {ℓ} {A : Type ℓ} (weight : A → ℕ) where
  unfoldable pub sum_below : ℕ → (ℕ → A) → ℕ
  sum_below zero f = 0
  sum_below (suc n) f = weight (f n) + sum_below n f

  sum_below-put_above :
      (n : ℕ) (f : ℕ → A) (i : ℕ) (a : A) → n ≤ i → sum_below n (put f i a) ≡ sum_below n f
  unfolding sum_below
  sum_below-put_above zero f i a h = refl
  sum_below-put_above (suc n) f i a h = ground (arith, sum_below-put_above n f i a)

  -- A write moves the sum by the difference of the two weights.
  pub sum_below-put :
      (n : ℕ) (f : ℕ → A) (i : ℕ) (a : A)
      → i < n
      → sum_below n (put f i a) + weight (f i) ≡ sum_below n f + weight a
  unfolding sum_below
  sum_below-put zero f i a h = absurd (omega arith)
  sum_below-put (suc n) f i a h = ground (arith, sum_below-put n f i a, sum_below-put_above n f i a)

  -- One entry weighs no more than all.
  pub weight-le-sum_below : (n : ℕ) (f : ℕ → A) (i : ℕ) → i < n → weight (f i) ≤ sum_below n f
  unfolding sum_below
  weight-le-sum_below zero f i h = absurd (omega arith)
  weight-le-sum_below (suc n) f i h = ground (arith, weight-le-sum_below n f i)

  pub sum_below-eq_zero :
      (n : ℕ) (f : ℕ → A) → ((i : ℕ) → i < n → weight (f i) ≡ 0) → sum_below n f ≡ 0
  unfolding sum_below
  sum_below-eq_zero zero f h = refl
  sum_below-eq_zero (suc n) f h =
      omega (arith, h n (omega arith), sum_below-eq_zero n f (λ i lt. h i (omega arith)))

  pub sum_below-le : ((a : A) → weight a ≤ 1) → (n : ℕ) (f : ℕ → A) → sum_below n f ≤ n
  unfolding sum_below
  sum_below-le small zero f = omega arith
  sum_below-le small (suc n) f = omega (arith, small (f n), sum_below-le small n f)

pub sum_below_mono {ℓ} :
    {A : Type ℓ} (v w : A → ℕ)
    → ((a : A) → v a ≤ w a)
    → (n : ℕ) (f : ℕ → A) → sum_below v n f ≤ sum_below w n f
unfolding sum_below
sum_below_mono v w h zero f = omega arith
sum_below_mono v w h (suc n) f = omega (arith, h (f n), sum_below_mono v w h n f)
