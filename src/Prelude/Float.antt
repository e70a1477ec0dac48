-- ===== src/Prelude/Float.antt =====
-- float64 as an interface: the operations that the code uses, and what IEEE 754 says of them.
-- A NaN is a value that is not `le` itself.
use Prim.Native.Nat.{ℕ, suc, ◌^◌, ◌≤◌, ◌<◌}
use mathlib.Core.Path.{◌≡◌}
use mathlib.Core.Logic.{◌⊎◌}
use mathlib.Core.Bool.{Bool, true, false}
use mathlib.Core.Option.{Option}
use peakshield.Prelude.Int.{ℤ, pos, ◌≤ℤ◌}
use peakshield.Prelude.Bytes.{Bytes}

pub record Float64 : Type 1 where
  pub Real : Type 0
  pub of_int : ℤ → Real  -- float64(n)
  pub to_int : Real → ℤ  -- int64(x)
  pub add : Real → Real → Real
  pub sub : Real → Real → Real
  pub mul : Real → Real → Real
  pub div : Real → Real → Real
  pub lt : Real → Real → Bool
  pub le : Real → Real → Bool
  pub parse : Bytes → Option Real  -- strconv.ParseFloat(s, 64)
  pub le_trans : (x y z : Real) → le x y ≡ true → le y z ≡ true → le x z ≡ true
  pub le_or_lt : (x y : Real) → le x x ≡ true → le y y ≡ true → (le x y ≡ true) ⊎ (lt y x ≡ true)
  pub lt_le : (x y : Real) → lt x y ≡ true → le x y ≡ true
  pub lt_not_le : (x y : Real) → lt x y ≡ true → le y x ≡ false
  pub le_number : (x y : Real) → le x y ≡ true → (le x x ≡ true) × (le y y ≡ true)
  -- numbers above zero that are equal are the same, since only zero has two signs
  pub le_antisym :
      (x y : Real) → le (of_int (pos 1)) x ≡ true → le x y ≡ true → le y x ≡ true → x ≡ y
  -- conversion rounds, and rounding is monotone
  pub of_int_mono : (a b : ℤ) → a ≤ℤ b → le (of_int a) (of_int b) ≡ true
  pub of_int_one : le (of_int (pos 1)) (of_int (pos 0)) ≡ false
  pub add_nonneg :
      (x y : Real)
      → le (of_int (pos 0)) x ≡ true
      → le (of_int (pos 0)) y ≡ true
      → le (of_int (pos 0)) (add x y) ≡ true
  -- a positive integer is converted to a finite number above zero
  pub scale_nonneg :
      (n : ℕ) (y : Real)
      → le (of_int (pos 0)) y ≡ true
      → le (of_int (pos 0)) (mul (of_int (pos (suc n))) y) ≡ true
  pub scale_mono :
      (m n : ℕ) (y : Real)
      → m ≤ n
      → le (of_int (pos 0)) y ≡ true
      → le (mul (of_int (pos (suc m))) y) (mul (of_int (pos (suc n))) y) ≡ true
  pub div_nonneg :
      (x : Real) (n : ℕ)
      → le (of_int (pos 0)) x ≡ true
      → le (of_int (pos 0)) (div x (of_int (pos (suc n)))) ≡ true
  pub sub_one :
      (x : Real)
      → le (of_int (pos 1)) x ≡ true
      → (le (of_int (pos 0)) (sub x (of_int (pos 1))) ≡ true)
        × (le (sub x (of_int (pos 1))) x ≡ true)
  -- integers up to 2^53 are exact
  pub sub_one_exact :
      (n : ℕ) → suc n < 2 ^ 53 → sub (of_int (pos (suc n))) (of_int (pos 1)) ≡ of_int (pos n)
  -- NaN propagates, and is above nothing
  pub add_nan : (x y : Real) → le y y ≡ false → le (add x y) (add x y) ≡ false
  pub mul_nan : (x y : Real) → le y y ≡ false → le (mul x y) (mul x y) ≡ false
  pub div_nan : (x y : Real) → le x x ≡ false → le (div x y) (div x y) ≡ false
  -- conversion to an integer truncates, and is defined where the result is in range
  pub to_int_mono :
      (x y : Real)
      → le (of_int (pos 0)) x ≡ true
      → le x y ≡ true
      → lt y (of_int (pos (2 ^ 63))) ≡ true
      → to_int x ≤ℤ to_int y
