-- ===== src/Prelude/Lists.antt =====
-- Lists measured by native numbers, under the library's names.
use Prim.Native.Nat.{ℕ, zero, suc, ◌+◌, ◌-◌, ◌≤◌}
use mathlib.Core.Path.{◌≡◌, refl, sym, ap, ◌∙◌}
use mathlib.Core.List.{List, [], ◌∷◌, ◌++◌}
use native.Mathlib.Omega.{arith}
use peakshield.Prelude.Tests.{◌==◌, if◌then◌else◌}

module _ {ℓ} {A : Type ℓ} where
  abbrev pub length : List A → ℕ
  length [] = 0
  length (x ∷ xs) = suc (length xs)

  abbrev pub take : ℕ → List A → List A
  take zero xs = []
  take (suc n) [] = []
  take (suc n) (x ∷ xs) = x ∷ take n xs

  abbrev pub drop : ℕ → List A → List A
  drop zero xs = xs
  drop (suc n) [] = []
  drop (suc n) (x ∷ xs) = drop n xs

  pub length-append : (xs ys : List A) → length (xs ++ ys) ≡ length xs + length ys
  length-append [] ys = omega arith
  length-append (x ∷ xs) ys = omega (arith, length-append xs ys)

suc-plus : (i k : ℕ) → suc i + k ≡ suc (i + k)
suc-plus i k = omega arith

module _ {ℓ} {A : Type ℓ} where
  pub length-drop : (n : ℕ) (xs : List A) → length (drop n xs) ≡ length xs - n
  length-drop zero xs = omega arith
  length-drop (suc n) [] = omega arith
  length-drop (suc n) (x ∷ xs) = omega (arith, length-drop n xs)

  pub length-take-le : (n : ℕ) (xs : List A) → length (take n xs) ≤ n
  length-take-le zero xs = omega arith
  length-take-le (suc n) [] = omega arith
  length-take-le (suc n) (x ∷ xs) = omega (arith, length-take-le n xs)

  pub take-drop : (k : ℕ) (b : List A) → take k b ++ drop k b ≡ b
  take-drop zero b = refl
  take-drop (suc k) [] = refl
  take-drop (suc k) (x ∷ b) = ap (◌∷◌ x) (take-drop k b)

  pub length-take : (k : ℕ) (b : List A) → k ≤ length b → length (take k b) ≡ k
  length-take zero b h = refl
  length-take (suc k) [] h = absurd (omega arith)
  length-take (suc k) (x ∷ b) h = omega (arith, length-take k b)

  take-nil : (k : ℕ) → take {A = A} k [] ≡ []
  take-nil zero = refl
  take-nil (suc k) = refl

  pub take_add : (i k : ℕ) (b : List A) → take (i + k) b ≡ take i b ++ take k (drop i b)
  take_add zero k b = ap (λ n. take n b) (omega arith)
  take_add (suc i) k [] = take-nil (suc i + k) ∙ sym (take-nil k)
  take_add (suc i) k (x ∷ b) = ap (λ n. take n (x ∷ b)) (suc-plus i k) ∙ ap (◌∷◌ x) (take_add i k b)

-- How often the ticket `t` stands in the list.
abbrev pub count : ℕ → List ℕ → ℕ
count t [] = 0
count t (s ∷ q) = (if s == t then 1 else 0) + count t q

pub count-append : (t : ℕ) (q r : List ℕ) → count t (q ++ r) ≡ count t q + count t r
count-append t (s ∷ q) r = let rest = count-append t q r in omega (arith, rest)
count-append t [] r = omega arith
