-- ===== src/Stripper/Scan/Laws.antt =====
-- stripper/stripper.go: what the searches find.
use peakshield.Prelude.{
  ℕ, zero, suc, ◌+◌, ◌≤◌, ◌<◌, ◌≡◌, refl, true, false, [], ◌∷◌, none, some, length, take, drop, map,
  arith, Bool-cases, Option-cases, inl, inr, sym, subst, ◌∙◌,
}
use peakshield.Prelude.Bytes.{Bytes, to_lower, eqb, eqb_iff}
use peakshield.Stripper.Scan.{starts_fold, index_fold}

-- The text begins with the target, but for the case of its letters.
abbrev FoldsAt : Bytes → Bytes → Type 0
FoldsAt b target = starts_fold b target ≡ true

pub starts_fold-take :
    (b target : Bytes) → starts_fold b target ≡ eqb (map to_lower (take (length target) b)) target
unfolding starts_fold
starts_fold-take [] [] = refl
starts_fold-take (c ∷ b) [] = refl
starts_fold-take [] (p ∷ target) = refl
starts_fold-take (c ∷ b) (p ∷ target) = ground (arith, starts_fold-take b target)

-- What was found: the place, and what stands before it.
abbrev pub FirstAt : Bytes → Bytes → ℕ → Type 0
FirstAt b target i =
    (map to_lower (take (length target) (drop i b)) ≡ target)
    × ((j : ℕ) → j < i → starts_fold (drop j b) target ≡ false)

found_here : (b target : Bytes) → starts_fold b target ≡ true → FirstAt b target 0
found_here b target h =
    ((eqb_iff _ target).0 (sym (starts_fold-take b target) ∙ h), λ j lt. absurd (omega arith))

found_later :
    (c : ℕ) (b target : Bytes) (i : ℕ)
    → starts_fold (c ∷ b) target ≡ false
    → FirstAt b target i
    → FirstAt (c ∷ b) target (suc i)
found_later c b target i h (here, before) = (here, earlier)
  where
    earlier : (j : ℕ) → j < suc i → starts_fold (drop j (c ∷ b)) target ≡ false
    earlier zero lt = h
    earlier (suc j) lt = before j (omega arith)

-- indexFold finds the first occurrence: the text there reads like the target in lower case, and it
-- does not at any place before.
pub index_fold_first :
    (b target : Bytes) (i : ℕ) → index_fold b target ≡ some i → FirstAt b target i
unfolding index_fold
index_fold_first [] target i h = elim (Bool-cases (starts_fold [] target)) [
  | inl here ↦
      let e : 0 ≡ i = ground (arith, here) in
      subst (FirstAt [] target) e (found_here [] target here)
  | inr nowhere ↦ ground (arith, nowhere)
]
index_fold_first (c ∷ b) target i h = elim (Bool-cases (starts_fold (c ∷ b) target)) [
  | inl here ↦
      let e : 0 ≡ i = ground (arith, here) in
      subst (FirstAt (c ∷ b) target) e (found_here (c ∷ b) target here)
  | inr not_here ↦ elim (Option-cases (index_fold b target)) [
    | inl nowhere ↦ absurd (ground (arith, not_here, nowhere))
    | inr (k, later) ↦
        let e : suc k ≡ i = ground (arith, not_here, later) in
        subst (FirstAt (c ∷ b) target) e
          (found_later c b target k not_here (index_fold_first b target k later))
  ]
]

-- Where indexFold finds nothing, the target stands at no place.
pub index_fold-none :
    (b target : Bytes)
    → index_fold b target ≡ none
    → (j : ℕ) → starts_fold (drop j b) target ≡ false
unfolding index_fold
index_fold-none [] target h zero = ground arith
index_fold-none [] target h (suc j) = ground arith
index_fold-none (c ∷ b) target h zero = ground arith
index_fold-none (c ∷ b) target h (suc j) = elim (Option-cases (index_fold b target)) [
  | inl nowhere ↦ index_fold-none b target nowhere j
  | inr (k, later) ↦ absurd (ground (arith, later))
]

starts_fold-length : (b target : Bytes) → starts_fold b target ≡ true → length target ≤ length b
unfolding starts_fold
starts_fold-length b [] h = omega arith
starts_fold-length [] (p ∷ target) h = cc
starts_fold-length (c ∷ b) (p ∷ target) h = ground (arith, starts_fold-length b target)

-- What indexFold finds lies within the text.
pub index_fold-le :
    (b target : Bytes) (i : ℕ) → index_fold b target ≡ some i → i + length target ≤ length b
unfolding index_fold
index_fold-le [] target i h = ground (arith, starts_fold-length [] target)
index_fold-le (c ∷ b) target i h = elim (Option-cases (index_fold b target)) [
  | inl nowhere ↦ ground (arith, nowhere, starts_fold-length (c ∷ b) target)
  | inr (k, later) ↦
      ground (arith, later, starts_fold-length (c ∷ b) target, index_fold-le b target k later)
]
