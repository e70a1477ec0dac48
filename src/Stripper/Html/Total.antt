-- ===== src/Stripper/Html/Total.antt =====
-- stripper/stripper.go: the loop of stripHTML ends.
use mathlib.Core.Option
use peakshield.Prelude.{
  ℕ, zero, suc, ◌<◌, ◌≡◌, refl, ◌∙◌, Bool, true, false, [], ◌∷◌, ◌++◌, none, some, length, take,
  drop, length-drop, arith, Option-cases, inl, inr,
}
use peakshield.Prelude.Bytes.{Bytes}
use peakshield.Prelude.Search.{index_byte, index_byte-lt}
use peakshield.Stripper.Html.{Piece, tag_piece, strip_from, strip_html}

-- Each round advances.
pub tag_piece-skip : (injected : Bool) (rest : Bytes) → 0 < (tag_piece injected rest).skip
unfolding tag_piece
tag_piece-skip true rest = ground arith
tag_piece-skip false rest = ground arith

-- A round without a `<`.
pub strip_from_text :
    (fuel : ℕ) (injected : Bool) (input : Bytes)
    → index_byte b'<' input ≡ none
    → strip_from (suc fuel) injected input ≡ some input
unfolding strip_from
strip_from_text fuel injected [] h = refl
strip_from_text fuel injected (c ∷ input) h = rw (h, strip_from)

-- What is left after a round that meets a `<` at `start`.
abbrev pub piece_at : Bool → Bytes → ℕ → Piece
piece_at injected input start = tag_piece injected (drop start input)

abbrev pub left_at : Bool → Bytes → ℕ → Bytes
left_at injected input start = drop (piece_at injected input start).skip (drop start input)

-- A round with a `<`.
pub strip_from_tag :
    (fuel : ℕ) (injected : Bool) (input : Bytes) (start : ℕ)
    → index_byte b'<' input ≡ some start
    → strip_from (suc fuel) injected input
      ≡ Option.map
          (λ out. take start input ++ (piece_at injected input start).out ++ out)
          (strip_from fuel (piece_at injected input start).injected (left_at injected input start))
unfolding strip_from
strip_from_tag fuel injected [] start h = unfold index_byte in cc
strip_from_tag fuel injected (c ∷ input) start h = rw (h, strip_from)

pub left_at-lt :
    (injected : Bool) (input : Bytes) (start : ℕ)
    → index_byte b'<' input ≡ some start
    → length (left_at injected input start) < length input
left_at-lt injected input start h = omega (
  arith,
  index_byte-lt b'<' input start h,
  tag_piece-skip injected (drop start input),
  length-drop (piece_at injected input start).skip (drop start input),
  length-drop start input,
)

strip_from_total :
    (fuel : ℕ) (injected : Bool) (input : Bytes)
    → length input < fuel
    → (out : Bytes) × (strip_from fuel injected input ≡ some out)
strip_from_total zero injected input h = absurd (omega arith)
strip_from_total (suc fuel) injected input h = elim (Option-cases (index_byte b'<' input)) [
  | inl text ↦ (input, strip_from_text fuel injected input text)
  | inr (start, at) ↦
      let (out, more) =
        strip_from_total fuel (piece_at injected input start).injected
          (left_at injected input start) (omega (arith, left_at-lt injected input start at)) in
      (
        take start input ++ (piece_at injected input start).out ++ out,
        strip_from_tag fuel injected input start at ∙ rw more,
      )
]

-- stripHTML ends on every input: it makes at most as many rounds as there are bytes.
pub strip_html_total : (input : Bytes) → (out : Bytes) × (strip_html input ≡ some out)
unfolding strip_html
strip_html_total input = strip_from_total (suc (length input)) false input (omega arith)
