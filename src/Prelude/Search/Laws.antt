-- ===== src/Prelude/Search/Laws.antt =====
-- What the search for a byte finds, and how the bytes split there.
use peakshield.Prelude.{
  ℕ, zero, suc, ◌≡◌, refl, ap, ◌∙◌, [], ◌∷◌, ◌++◌, none, some, take, drop, arith, Option-cases, inl,
  inr,
}
use peakshield.Prelude.Bytes.{Bytes}
use peakshield.Prelude.Search.{Lacks, index_byte}

pub index_byte-split :
    (c : ℕ) (b : Bytes) (i : ℕ)
    → index_byte c b ≡ some i
    → (take i b ++ c ∷ drop 1 (drop i b) ≡ b) × (drop i b ≡ c ∷ drop 1 (drop i b))
unfolding index_byte
index_byte-split c [] i h = cc
index_byte-split c (x ∷ b) zero h = elim (Option-cases (index_byte c b)) [
  | inl nowhere ↦ (ground (arith, nowhere), ground (arith, nowhere))
  | inr (k, later) ↦ (ground (arith, later), ground (arith, later))
]
index_byte-split c (x ∷ b) (suc i) h = elim (Option-cases (index_byte c b)) [
  | inl nowhere ↦ absurd (ground (arith, nowhere))
  | inr (k, later) ↦
      let e : k ≡ i = ground (arith, later) in
      let (whole, there) = index_byte-split c b i (later ∙ ap some e) in (ap (◌∷◌ x) whole, there)
]

pub index_byte-some :
    (c : ℕ) (b : Bytes) (i : ℕ)
    → index_byte c b ≡ some i
    → (take (suc i) b ≡ take i b ++ c ∷ []) × Lacks c (take i b)
unfolding index_byte
index_byte-some c [] i h = cc
index_byte-some c (x ∷ b) zero h = elim (Option-cases (index_byte c b)) [
  | inl nowhere ↦ (ground (arith, nowhere), tt)
  | inr (k, later) ↦ (ground (arith, later), tt)
]
index_byte-some c (x ∷ b) (suc i) h = elim (Option-cases (index_byte c b)) [
  | inl nowhere ↦ absurd (ground (arith, nowhere))
  | inr (k, later) ↦
      let e : k ≡ i = ground (arith, later) in
      let (whole, first) = index_byte-some c b i (later ∙ ap some e) in
      (ap (◌∷◌ x) whole, (λ same. ground (arith, later), first))
]

pub index_byte-none : (c : ℕ) (b : Bytes) → index_byte c b ≡ none → Lacks c b
unfolding index_byte
index_byte-none c [] h = tt
index_byte-none c (x ∷ b) h = elim (Option-cases (index_byte c b)) [
  | inl nowhere ↦ (λ same. ground (arith, nowhere), index_byte-none c b nowhere)
  | inr (k, later) ↦ absurd (ground (arith, later))
]

pub index_byte_missing : (c : ℕ) (b : Bytes) → Lacks c b → index_byte c b ≡ none
unfolding index_byte
index_byte_missing c [] h = refl
index_byte_missing c (x ∷ b) (ne, h) = ground (arith, index_byte_missing c b h)
