-- ===== src/Stripper/Html/Clean.antt =====
-- stripper/stripper.go: what stripHTML leaves alone, and what it takes out.
use mathlib.Core.Option
use peakshield.Prelude.{
  ℕ, zero, suc, ◌+◌, ◌<◌, ◌≡◌, sym, ap, ◌∙◌, Bool, true, false, ◌||◌, not, append_assoc, append-nil,
  subst, [], ◌∷◌, ◌++◌, some, length, take, drop, length-drop, length-append, arith, Option-cases,
  inl, inr,
}
use peakshield.Prelude.Bytes.{Bytes, bytes}
use peakshield.Stripper.Scan.{has_tag_prefix, index_fold}
use peakshield.Prelude.Search.{
  Lacks, index_byte, index_byte-lt, index_byte-append, take_before, drop_before,
}
use peakshield.Prelude.Search.Laws.{index_byte-split}
use peakshield.Stripper.Html.{tag_piece, strip_from, strip_html}
use peakshield.Stripper.Html.Total.{strip_from_text, strip_from_tag, piece_at, left_at, left_at-lt}

-- The text begins with none of the tags that stripHTML knows.
abbrev ordinary : Bytes → Bool
ordinary b = not (
    has_tag_prefix b (bytes "<script")
    || has_tag_prefix b (bytes "<style")
    || has_tag_prefix b (bytes "<link")
    || has_tag_prefix b (bytes "<img")
    || has_tag_prefix b (bytes "<body"))

-- At no place.
abbrev Ordinary : Bytes → Type 0
Ordinary [] = Unit {0}
Ordinary (c ∷ b) = (ordinary (c ∷ b) ≡ true) × Ordinary b

Ordinary-drop : (n : ℕ) (b : Bytes) → Ordinary b → Ordinary (drop n b)
Ordinary-drop zero b h = h
Ordinary-drop (suc n) [] h = tt
Ordinary-drop (suc n) (c ∷ b) (_, h) = Ordinary-drop n b h

tag_piece-ordinary :
    (injected : Bool) (rest : Bytes)
    → ordinary rest ≡ true
    → tag_piece injected rest ≡ record { out = b'<' ∷ []; skip = 1; injected = injected }
unfolding tag_piece
tag_piece-ordinary true rest h = ground arith
tag_piece-ordinary false rest h = ground arith

strip_from-Ordinary :
    (fuel : ℕ) (injected : Bool) (input : Bytes)
    → length input < fuel
    → Ordinary input
    → strip_from fuel injected input ≡ some input
strip_from-Ordinary zero injected input le h = absurd (omega arith)
strip_from-Ordinary (suc fuel) injected input le h = elim (Option-cases (index_byte b'<' input)) [
  | inl text ↦ strip_from_text fuel injected input text
  | inr (start, at) ↦
      let (whole, there) = index_byte-split b'<' input start at in
      let plain : piece_at injected input start
          ≡ record { out = b'<' ∷ []; skip = 1; injected = injected } =
        tag_piece-ordinary injected (drop start input) (
          subst (λ b. ordinary b ≡ true) (sym there)
            (subst Ordinary there (Ordinary-drop start input h)).0) in
      strip_from_tag fuel injected input start at
      ∙ rw
          (
            plain,
            strip_from-Ordinary fuel injected (drop 1 (drop start input))
                (omega (
                  arith,
                  index_byte-lt b'<' input start at,
                  length-drop start input,
                  length-drop 1 (drop start input),
                ))
                (Ordinary-drop 1 (drop start input) (Ordinary-drop start input h)),
          )
          (ap some
            (append_assoc (take start input) (b'<' ∷ []) (drop 1 (drop start input)) ∙ whole))
]

-- Text that has none of the special tags at any place passes unchanged, byte for byte.
strip_html-Ordinary : (input : Bytes) → Ordinary input → strip_html input ≡ some input
unfolding strip_html
strip_html-Ordinary input h = strip_from-Ordinary (suc (length input)) false input (omega arith) h

-- Fuel above the length makes no difference.
strip_from_fuel :
    (f g : ℕ) (injected : Bool) (input : Bytes)
    → length input < f
    → length input < g
    → strip_from f injected input ≡ strip_from g injected input
strip_from_fuel zero g injected input h k = absurd (omega arith)
strip_from_fuel (suc f) zero injected input h k = absurd (omega arith)
strip_from_fuel (suc f) (suc g) injected input h k = elim (Option-cases (index_byte b'<' input)) [
  | inl text ↦ strip_from_text f injected input text ∙ sym (strip_from_text g injected input text)
  | inr (start, at) ↦
      strip_from_tag f injected input start at
      ∙ ap (Option.map _) (
          strip_from_fuel f g _ (left_at injected input start)
            (omega (arith, left_at-lt injected input start at))
            (omega (arith, left_at-lt injected input start at)))
      ∙ sym (strip_from_tag g injected input start at)
]

tag_piece_script :
    (injected : Bool) (rest : Bytes) (end : ℕ)
    → has_tag_prefix rest (bytes "<script") ≡ true
    → index_fold rest (bytes "</script>") ≡ some end
    → tag_piece injected rest ≡ record { out = []; skip = end + 9; injected = injected }
unfolding tag_piece
tag_piece_script injected rest end tag close = rw (tag, close)

-- A script block behind text without a `<` is taken out as a whole: the text before it stays, and the
-- rest is treated as if the block had not been there.
pub script_removed :
    (before rest : Bytes) (end : ℕ)
    → Lacks b'<' before
    → index_byte b'<' rest ≡ some 0
    → has_tag_prefix rest (bytes "<script") ≡ true
    → index_fold rest (bytes "</script>") ≡ some end
    → strip_html (before ++ rest)
      ≡ Option.map (λ out. before ++ out) (strip_html (drop (end + 9) rest))
unfolding strip_html
script_removed before rest end text tag script close =
    let at = index_byte-append b'<' before rest text tag in
    strip_from_tag (length (before ++ rest)) false (before ++ rest) (length before) at
    ∙ rw
        (
          drop_before before rest,
          take_before before rest,
          tag_piece_script false rest end script close,
        )
        (ap
            (λ x.
              Option.map (λ out. x ++ out)
                (strip_from (length (before ++ rest)) false (drop (end + 9) rest)))
            (append-nil before)
          ∙ ap (Option.map (λ out. before ++ out)) (
              strip_from_fuel (length (before ++ rest)) (suc (length (drop (end + 9) rest))) false
                (drop (end + 9) rest)
                (omega (
                  arith,
                  length-append before rest,
                  length-drop (end + 9) rest,
                  index_byte-lt b'<' rest 0 tag,
                ))
                (omega arith)))
