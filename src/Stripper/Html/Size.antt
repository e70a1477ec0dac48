-- ===== src/Stripper/Html/Size.antt =====
-- stripper/stripper.go: how long the output of stripHTML can get.
use peakshield.Prelude.{
  ℕ, zero, suc, ◌+◌, ◌*◌, ◌≤◌, ◌<◌, ◌≡◌, sym, ap, ◌∙◌, map-some, Bool, true, false, [], ◌∷◌, ◌++◌,
  Option, none, some, length, take, drop, length-drop, length-append, length-take-le, arith,
  Option-cases, inl, inr,
}
use peakshield.Prelude.Bytes.{Bytes, bytes}
use peakshield.Stripper.Scan.{starts_fold, has_tag_prefix, index_fold}
use peakshield.Stripper.Scan.Laws.{index_fold-le}
use peakshield.Prelude.Search.{index_byte, index_byte-lt}
use peakshield.Stripper.Html.{
  Piece, or_else, notice, try_script, try_style, try_link, try_img, try_body, tag_piece, strip_from,
  strip_html,
}
use peakshield.Stripper.Html.Total.{strip_from_text, strip_from_tag, piece_at, left_at}

-- The notice that may still come.
abbrev to_come : Bool → ℕ
to_come true = 0
to_come false = length notice

-- A piece takes what it skips from the text, and writes no more than four times as much, and the
-- notice.
abbrev Fits : Bool → Bytes → Piece → Type 0
Fits injected rest p =
    (length p.out + to_come p.injected ≤ 4 * p.skip + to_come injected) × (p.skip ≤ length rest)

abbrev FitsIfAny : Bool → Bytes → Option Piece → Type 0
FitsIfAny injected rest none = Unit {0}
FitsIfAny injected rest (some p) = Fits injected rest p

try_script-Fits :
    (injected : Bool) (rest : Bytes) → FitsIfAny injected rest (try_script injected rest)
unfolding try_script
try_script-Fits injected rest = elim (Option-cases (index_fold rest (bytes "</script>"))) [
  | inl missing ↦ ground (arith, missing)
  | inr (end, found) ↦ ground (arith, found, index_fold-le rest (bytes "</script>") end)
]

try_style-Fits :
    (injected : Bool) (rest : Bytes) → FitsIfAny injected rest (try_style injected rest)
unfolding try_style
try_style-Fits injected rest = elim (Option-cases (index_fold rest (bytes "</style>"))) [
  | inl missing ↦ ground (arith, missing)
  | inr (end, found) ↦
      ground
        (arith, found, index_fold-le rest (bytes "</style>") end, length-take-le (end + 8) rest)
]

try_link-Fits : (injected : Bool) (rest : Bytes) → FitsIfAny injected rest (try_link injected rest)
unfolding try_link
try_link-Fits injected rest = elim (Option-cases (index_byte b'>' rest)) [
  | inl missing ↦ ground (arith, missing)
  | inr (end, found) ↦
      ground (arith, found, index_byte-lt b'>' rest end, length-take-le (end + 1) rest)
]

-- No `>` among the four bytes of `<img`.
img_end :
    (rest : Bytes) (end : ℕ)
    → starts_fold rest (bytes "<img") ≡ true
    → index_byte b'>' rest ≡ some end
    → 4 ≤ end
unfolding starts_fold index_byte
img_end [] end h at = cc
img_end (a ∷ []) end h at = ground arith
img_end (a ∷ b ∷ []) end h at = ground arith
img_end (a ∷ b ∷ c ∷ []) end h at = ground arith
img_end (a ∷ b ∷ c ∷ d ∷ r) end h at = ground arith

try_img-Fits : (injected : Bool) (rest : Bytes) → FitsIfAny injected rest (try_img injected rest)
unfolding try_img has_tag_prefix
try_img-Fits injected rest = elim (Option-cases (index_byte b'>' rest)) [
  | inl missing ↦ ground (arith, missing)
  | inr (end, found) ↦ ground (arith, found, index_byte-lt b'>' rest end, img_end rest end)
]

try_body-Fits : (injected : Bool) (rest : Bytes) → FitsIfAny injected rest (try_body injected rest)
unfolding try_body
try_body-Fits true rest = tt
try_body-Fits false rest = elim (Option-cases (index_byte b'>' rest)) [
  | inl missing ↦ ground (arith, missing)
  | inr (end, found) ↦ ground (
    arith,
    found,
    index_byte-lt b'>' rest end,
    length-take-le (end + 1) rest,
    length-append (take (end + 1) rest) notice,
  )
]

or_else-Fits :
    (injected : Bool) (rest : Bytes) (o : Option Piece) (p : Piece)
    → FitsIfAny injected rest o
    → Fits injected rest p
    → Fits injected rest (or_else o p)
or_else-Fits injected rest none p h k = k
or_else-Fits injected rest (some q) p h k = h

tag_piece-Fits :
    (injected : Bool) (rest : Bytes)
    → 0 < length rest
    → Fits injected rest (tag_piece injected rest)
unfolding tag_piece
tag_piece-Fits injected rest h = or_else-Fits injected rest _ _ (try_script-Fits injected rest) (
    or_else-Fits injected rest _ _ (try_style-Fits injected rest) (
      or_else-Fits injected rest _ _ (try_link-Fits injected rest) (
        or_else-Fits injected rest _ _ (try_img-Fits injected rest) (
          or_else-Fits injected rest _ _ (try_body-Fits injected rest)
            (omega arith, omega arith)))))

strip_from_size :
    (fuel : ℕ) (injected : Bool) (input : Bytes) {out : Bytes}
    → strip_from fuel injected input ≡ some out
    → length out ≤ 4 * length input + to_come injected
strip_from_size zero injected input h = unfold strip_from in cc
strip_from_size (suc fuel) injected input {out} h = elim (Option-cases (index_byte b'<' input)) [
  | inl text ↦
      let e : some input ≡ some out = sym (strip_from_text fuel injected input text) ∙ h in
      ground (arith, e)
  | inr (start, at) ↦
      let (more, e, written) =
        map-some _ _ (sym (strip_from_tag fuel injected input start at) ∙ h) in
      let p = piece_at injected input start in
      let left = index_byte-lt b'<' input start at in
      let (fits, within) =
        tag_piece-Fits injected (drop start input) (omega (arith, length-drop start input)) in
      omega (
        arith,
        ap length written,
        length-append (take start input ++ p.out) more,
        length-append (take start input) p.out,
        length-take-le start input,
        length-drop start input,
        length-drop p.skip (drop start input),
        strip_from_size fuel p.injected (left_at injected input start) e,
      )
]

-- However an input is made, stripHTML makes it at most four times as long, and adds its notice at
-- most once.
pub strip_html_size :
    (input : Bytes) {out : Bytes}
    → strip_html input ≡ some out
    → length out ≤ 4 * length input + length notice
unfolding strip_html
strip_html_size input h = strip_from_size (suc (length input)) false input h
