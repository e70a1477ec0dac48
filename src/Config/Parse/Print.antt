-- ===== src/Config/Parse/Print.antt =====
-- config/config.go: the integers that fmt prints are read back.
use peakshield.Prelude.{
  ℕ, zero, suc, ◌+◌, ◌-◌, ◌*◌, ◌/◌, ◌%◌, ◌≤◌, ◌<◌, ◌≡◌, refl, sym, ap, ◌∙◌, ◌≢◌, inl, inr, true,
  false, some, [], ◌∷◌, ◌++◌, arith, ltb, Bool-cases,
}
use peakshield.Prelude.Int.{ℤ, pos, negsuc, InInt64}
use peakshield.Prelude.Bytes.{Bytes, eqb, eqb_iff, decimal, decimal_digits}
use peakshield.Prelude.Result.{ok}
use peakshield.Config.Parse.{
  Env, digits_from, parse_digits, parse_int, env_int64, env_int, signed_in_range,
}

-- one more digit at the end
digits_from-snoc :
    (a n d : ℕ) (s : Bytes)
    → digits_from a s ≡ some n
    → d < 10
    → digits_from a (s ++ (b'0' + d) ∷ []) ≡ some (n * 10 + d)
unfolding digits_from
digits_from-snoc a n d [] h small = ground arith
digits_from-snoc a n d (c ∷ s) h small =
    ground (arith, digits_from-snoc (a * 10 + (c - b'0')) n d s)

pub digits_from-decimal_digits :
    (fuel n : ℕ) → n < fuel → digits_from 0 (decimal_digits fuel n) ≡ some n
unfolding digits_from decimal_digits
digits_from-decimal_digits zero n h = absurd (omega arith)
digits_from-decimal_digits (suc fuel) n h = elim (Bool-cases (ltb n 10)) [
  | inl last ↦ rw last (ground arith)
  | inr more ↦ rw more (
      digits_from-snoc 0 (n / 10) (n % 10) (decimal_digits fuel (n / 10))
        (digits_from-decimal_digits fuel (n / 10) (ground arith)) (omega arith)
      ∙ ap some (omega arith))
]

decimal_digits_head :
    (fuel n : ℕ) → n < fuel → (c : ℕ) × (s : Bytes) × (decimal_digits fuel n ≡ c ∷ s) × (b'0' ≤ c)
unfolding decimal_digits
decimal_digits_head zero n h = absurd (omega arith)
decimal_digits_head (suc fuel) n h = elim (Bool-cases (ltb n 10)) [
  | inl last ↦ (b'0' + n, [], rw last refl, omega arith)
  | inr more ↦
      let (c, s, e, low) = decimal_digits_head fuel (n / 10) (ground arith) in
      (c, s ++ (b'0' + n % 10) ∷ [], rw (more, e) refl, low)
]

parse_digits-decimal_digits :
    (fuel n : ℕ) → n < fuel → parse_digits (decimal_digits fuel n) ≡ some n
unfolding parse_digits
parse_digits-decimal_digits fuel n h =
    let (c, s, e, _) = decimal_digits_head fuel n h in
    rw e (rw e at (digits_from-decimal_digits fuel n h))

unsigned :
    (c : ℕ) (s : Bytes)
    → b'0' ≤ c
    → parse_int (c ∷ s) ≡ signed_in_range false (parse_digits (c ∷ s))
unfolding parse_int
unsigned c s low = ground arith

-- An integer of 64 bits that is printed in decimal is read back as it was.
parse_int-decimal : (z : ℤ) → InInt64 z → parse_int (decimal z) ≡ some z
unfolding parse_int decimal
parse_int-decimal (negsuc n) small =
    ap (signed_in_range true) (parse_digits-decimal_digits (suc (suc n)) (suc n) (omega arith))
    ∙ ground arith
parse_int-decimal (pos n) small =
    let (c, s, e, low) = decimal_digits_head (suc n) n (omega arith) in
    let read : parse_digits (c ∷ s) ≡ some n =
      ap parse_digits (sym e) ∙ parse_digits-decimal_digits (suc n) n (omega arith) in
    ap parse_int e ∙ unsigned c s low ∙ ap (signed_in_range false) read ∙ ground arith

decimal-ne-nil : (z : ℤ) → decimal z ≢ []
unfolding decimal
decimal-ne-nil (negsuc n) h = cc
decimal-ne-nil (pos n) h =
    let (c, s, e, _) = decimal_digits_head (suc n) n (omega arith) in
    let impossible : c ∷ s ≡ [] = sym e ∙ h in cc

-- envInt64 and envInt answer with z, whatever the default, if the variable holds the text that
-- fmt.Sprintf("%d", z) gives, for every z of 64 bits.
pub env_int64-decimal :
    (env : Env) (key : Bytes) (default z : ℤ)
    → InInt64 z
    → env key ≡ decimal z
    → (env_int64 env key default ≡ ok z) × (env_int env key default ≡ ok z)
unfolding env_int64 env_int
env_int64-decimal env key default z small e =
    let given : eqb (decimal z) [] ≡ false =
      ground (arith, eqb_iff (decimal z) [], decimal-ne-nil z) in
    rw (e, given, parse_int-decimal z small) (refl, refl)
