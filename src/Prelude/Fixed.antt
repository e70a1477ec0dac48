-- ===== src/Prelude/Fixed.antt =====
-- A concrete Float64 for the tests: multiples of 10^-9 from 0 on, and NaN. Results are cut off.
use Prim.Native.Nat.{ℕ, suc, ◌+◌, ◌-◌, ◌*◌, ◌/◌, ◌^◌, ◌≤◌, ◌<◌}
use mathlib.Core.Path.{◌≡◌, refl, ap}
use mathlib.Core.Logic.{◌⊎◌}
use mathlib.Core.Bool.{Bool, true, false, ◌&&◌}
use mathlib.Core.Option.{Option, none, some}
use mathlib.Core.List.{[], ◌∷◌}
use native.Mathlib.Omega.{arith}
use peakshield.Prelude.Tests.{ltb, leb, if◌then◌else◌}
use peakshield.Prelude.Int.{ℤ, pos, negsuc, pos_part, ◌≤ℤ◌}
use peakshield.Prelude.Bytes.{Bytes, bytes, eqb}
use peakshield.Prelude.Float.{Float64}

pub data Fixed : Type 0 where
  nan : Fixed
  units : ℕ → Fixed

abbrev one : ℕ
one = 1_000_000_000

abbrev lift : (ℕ → ℕ → ℕ) → Fixed → Fixed → Fixed
lift f (units a) (units b) = units (f a b)
lift f nan (units b) = nan
lift f x nan = nan

abbrev test : (ℕ → ℕ → Bool) → Fixed → Fixed → Bool
test f (units a) (units b) = f a b
test f nan (units b) = false
test f x nan = false

abbrev pub whole : ℤ → Fixed
whole n = units (pos_part n * one)

abbrev truncate : Fixed → ℤ
truncate nan = pos 0
truncate (units a) = pos (a / one)

product_mono : (m n y : ℕ) → m ≤ n → (suc m * one) * y / one ≤ (suc n * one) * y / one
product_mono m n y h = let scaled : m * y ≤ n * y = grind arith in omega arith

pub le_or_lt :
    (x y : Fixed)
    → test leb x x ≡ true
    → test leb y y ≡ true
    → (test leb x y ≡ true) ⊎ (test ltb y x ≡ true)
le_or_lt nan y h k = cc
le_or_lt (units a) nan h k = cc
le_or_lt (units a) (units b) h k = ground arith

pub le_trans : (x y z : Fixed) → test leb x y ≡ true → test leb y z ≡ true → test leb x z ≡ true
le_trans nan nan z h k = cc
le_trans nan (units b) z h k = cc
le_trans (units a) nan z h k = cc
le_trans (units a) (units b) nan h k = cc
le_trans (units a) (units b) (units c) h k = ground arith

pub lt_le : (x y : Fixed) → test ltb x y ≡ true → test leb x y ≡ true
lt_le nan nan h = cc
lt_le nan (units b) h = cc
lt_le (units a) nan h = cc
lt_le (units a) (units b) h = ground arith

pub lt_not_le : (x y : Fixed) → test ltb x y ≡ true → test leb y x ≡ false
lt_not_le nan nan h = cc
lt_not_le nan (units b) h = cc
lt_not_le (units a) nan h = cc
lt_not_le (units a) (units b) h = ground arith

pub le_number : (x y : Fixed) → test leb x y ≡ true → (test leb x x ≡ true) × (test leb y y ≡ true)
le_number nan nan h = cc
le_number nan (units b) h = cc
le_number (units a) nan h = cc
le_number (units a) (units b) h = ground arith

pub le_antisym :
    (x y : Fixed)
    → test leb (units one) x ≡ true
    → test leb x y ≡ true
    → test leb y x ≡ true
    → x ≡ y
le_antisym nan y l h k = cc
le_antisym (units a) nan l h k = cc
le_antisym (units a) (units b) l h k = ap units (ground arith)

pub of_int_mono : (a b : ℤ) → a ≤ℤ b → test leb (whole a) (whole b) ≡ true
of_int_mono (pos a) (pos b) h = ground arith
of_int_mono (pos a) (negsuc b) h = ground arith
of_int_mono (negsuc a) (pos b) h = ground arith
of_int_mono (negsuc a) (negsuc b) h = ground arith

pub add_nonneg :
    (x y : Fixed)
    → test leb (units 0) x ≡ true
    → test leb (units 0) y ≡ true
    → test leb (units 0) (lift (λ a b. a + b) x y) ≡ true
add_nonneg nan y h k = cc
add_nonneg (units a) nan h k = cc
add_nonneg (units a) (units b) h k = ground arith

pub scale_nonneg :
    (n : ℕ) (y : Fixed)
    → test leb (units 0) y ≡ true
    → test leb (units 0) (lift (λ a b. a * b / one) (whole (pos (suc n))) y) ≡ true
scale_nonneg n nan h = cc
scale_nonneg n (units b) h = ground arith

pub scale_mono :
    (m n : ℕ) (y : Fixed)
    → m ≤ n
    → test leb (units 0) y ≡ true
    → test leb
        (lift (λ a b. a * b / one) (whole (pos (suc m))) y)
        (lift (λ a b. a * b / one) (whole (pos (suc n))) y)
      ≡ true
scale_mono m n nan h k = cc
scale_mono m n (units y) h k = ground (arith, product_mono m n y (omega arith))

pub div_nonneg :
    (x : Fixed) (n : ℕ)
    → test leb (units 0) x ≡ true
    → test leb (units 0) (lift (λ a b. a * one / b) x (whole (pos (suc n)))) ≡ true
div_nonneg nan n h = cc
div_nonneg (units a) n h = ground arith

pub sub_one :
    (x : Fixed)
    → test leb (units one) x ≡ true
    → (test leb (units 0) (lift (λ a b. a - b) x (units one)) ≡ true)
      × (test leb (lift (λ a b. a - b) x (units one)) x ≡ true)
sub_one nan h = cc
sub_one (units a) h = ground arith

pub sub_one_exact :
    (n : ℕ) → suc n < 2 ^ 53 → lift (λ a b. a - b) (whole (pos (suc n))) (units one) ≡ whole (pos n)
sub_one_exact n h = ground arith

pub add_nan :
    (x y : Fixed)
    → test leb y y ≡ false
    → test leb (lift (λ a b. a + b) x y) (lift (λ a b. a + b) x y) ≡ false
add_nan nan nan h = refl
add_nan nan (units b) h = refl
add_nan (units a) nan h = refl
add_nan (units a) (units b) h = ground arith

pub mul_nan :
    (x y : Fixed)
    → test leb y y ≡ false
    → test leb (lift (λ a b. a * b / one) x y) (lift (λ a b. a * b / one) x y) ≡ false
mul_nan nan nan h = refl
mul_nan nan (units b) h = refl
mul_nan (units a) nan h = refl
mul_nan (units a) (units b) h = ground arith

pub div_nan :
    (x y : Fixed)
    → test leb x x ≡ false
    → test leb (lift (λ a b. a * one / b) x y) (lift (λ a b. a * one / b) x y) ≡ false
div_nan nan nan h = refl
div_nan nan (units b) h = refl
div_nan (units a) y h = ground arith

pub to_int_mono :
    (x y : Fixed)
    → test leb (units 0) x ≡ true
    → test leb x y ≡ true
    → test ltb y (whole (pos (2 ^ 63))) ≡ true
    → truncate x ≤ℤ truncate y
to_int_mono nan y h k l = cc
to_int_mono (units a) nan h k l = cc
to_int_mono (units a) (units b) h k l = ground arith

-- "NaN", and numbers without a fraction.
abbrev read_digits : ℕ → Bytes → Option Fixed
read_digits n [] = some (units (n * one))
read_digits n (c ∷ s) =
    let rest = read_digits (n * 10 + (c - b'0')) s in
    if leb b'0' c && leb c b'9' then rest else none

abbrev pub read : Bytes → Option Fixed
read s = if eqb s (bytes "NaN") then some nan else read_digits 0 s

abbrev pub fixed : Float64
fixed = record {
  Real = Fixed;
  of_int = whole;
  to_int = truncate;
  add = lift (λ a b. a + b);
  sub = lift (λ a b. a - b);
  mul = lift (λ a b. a * b / one);
  div = lift (λ a b. a * one / b);
  lt = test ltb;
  le = test leb;
  parse = read;
  le_trans = le_trans;
  le_or_lt = le_or_lt;
  lt_le = lt_le;
  lt_not_le = lt_not_le;
  le_number = le_number;
  le_antisym = le_antisym;
  of_int_mono = of_int_mono;
  of_int_one = refl;
  add_nonneg = add_nonneg;
  scale_nonneg = scale_nonneg;
  scale_mono = scale_mono;
  div_nonneg = div_nonneg;
  sub_one = sub_one;
  sub_one_exact = sub_one_exact;
  add_nan = add_nan;
  mul_nan = mul_nan;
  div_nan = div_nan;
  to_int_mono = to_int_mono;
}
