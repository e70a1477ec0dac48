-- ===== src/Stripper/Html/Tokens/Sound.antt =====
-- stripper/stripper.go: stripHTML writes what the tokens of the page call for.
use mathlib.Core.Option
use peakshield.Prelude.{
  ℕ, zero, suc, ◌+◌, ◌≡◌, refl, sym, ap, subst, ◌∙◌, map-some, Bool, true, false, [], ◌∷◌, Option,
  none, some, take, drop, if◌then◌else◌, length-take, take-drop, arith, Option-cases, Bool-cases,
  inl, inr, ltb,
}
use peakshield.Prelude.Bytes.{Bytes, bytes}
use peakshield.Prelude.Search.{Lacks, index_byte}
use peakshield.Prelude.Search.Laws.{index_byte-split, index_byte-some, index_byte-none}
use peakshield.Stripper.Scan.{has_tag_prefix, index_fold}
use peakshield.Stripper.Scan.Laws.{index_fold_first, index_fold-le}
use peakshield.Stripper.Html.{
  Piece, or_else, is_stylesheet, try_script, try_style, try_link, try_img, try_body, tag_piece,
  strip_from,
}
use peakshield.Stripper.Html.Total.{strip_from_text, strip_from_tag, piece_at, left_at}
use peakshield.Stripper.Html.Tokens.{
  IsTag, Plain, Token, script, large_style, small_style, stylesheet, other_link, image, first_body,
  less, Strips, text, markup,
}
use peakshield.Stripper.Html.Tokens.Marks.{
  has_tag_prefix_iff, index_fold-Block, index_fold-Occurs, index_byte-Tag,
}

-- The piece is a token at the front of the text.
abbrev Reads : Bool → Bytes → Piece → Type 0
Reads injected rest p = Token injected rest (take p.skip rest) p.out p.injected

abbrev ReadsIfAny : Bool → Bytes → Option Piece → Type 0
ReadsIfAny injected rest none = Unit {0}
ReadsIfAny injected rest (some p) = Reads injected rest p

-- Where a tag begins and has an end, the piece is what the rule of the tag makes of the end.
found-ReadsIfAny :
    (injected : Bool) (name rest : Bytes) (end : Option ℕ) (f : ℕ → Piece)
    → ((i : ℕ) → IsTag name rest → end ≡ some i → Reads injected rest (f i))
    → ReadsIfAny injected rest (if has_tag_prefix rest name then Option.map f end else none)
found-ReadsIfAny injected name rest end f rule = elim (Bool-cases (has_tag_prefix rest name)) [
  | inl tag ↦ rw tag (elim (Option-cases end) [
    | inl nowhere ↦ rw nowhere tt
    | inr (i, at) ↦ rw at (rule i ((has_tag_prefix_iff name rest).0 tag) at)
  ])
  | inr other ↦ rw other tt
]

try_script-ReadsIfAny :
    (injected : Bool) (rest : Bytes) → ReadsIfAny injected rest (try_script injected rest)
unfolding try_script
try_script-ReadsIfAny injected rest =
    found-ReadsIfAny injected (bytes "<script") rest _ _
      (λ i tag at. script tag (index_fold-Block rest (bytes "</script>") i at))

try_style-ReadsIfAny :
    (injected : Bool) (rest : Bytes) → ReadsIfAny injected rest (try_style injected rest)
unfolding try_style
try_style-ReadsIfAny injected rest =
    found-ReadsIfAny injected (bytes "<style") rest _ _ (λ i tag at.
      let block = index_fold-Block rest (bytes "</style>") i at in
      let size = length-take (i + 8) rest (index_fold-le rest (bytes "</style>") i at) in
      elim (Bool-cases (ltb 2048 (i + 8))) [
        | inl large ↦ rw large (large_style tag block (ground (arith, size, large)))
        | inr small ↦ rw small (small_style tag block (ground (arith, size, small)))
      ])

try_link-ReadsIfAny :
    (injected : Bool) (rest : Bytes) → ReadsIfAny injected rest (try_link injected rest)
unfolding try_link
try_link-ReadsIfAny injected rest = found-ReadsIfAny injected (bytes "<link") rest _ _ (λ i tag at.
    elim (Option-cases (index_fold (take (i + 1) rest) (bytes "stylesheet"))) [
      | inl other ↦
          rw (other, is_stylesheet)
            (other_link tag (index_byte-Tag rest i at)
              (index_fold-Occurs (take (i + 1) rest) (bytes "stylesheet") other))
      | inr (k, sheet) ↦
          rw (sheet, is_stylesheet)
            (stylesheet tag (index_byte-Tag rest i at)
              (k, (index_fold_first (take (i + 1) rest) (bytes "stylesheet") k sheet).0))
    ])

try_img-ReadsIfAny :
    (injected : Bool) (rest : Bytes) → ReadsIfAny injected rest (try_img injected rest)
unfolding try_img
try_img-ReadsIfAny injected rest =
    found-ReadsIfAny injected (bytes "<img") rest _ _
      (λ i tag at. image tag (index_byte-Tag rest i at))

try_body-ReadsIfAny :
    (injected : Bool) (rest : Bytes) → ReadsIfAny injected rest (try_body injected rest)
unfolding try_body
try_body-ReadsIfAny true rest = tt
try_body-ReadsIfAny false rest =
    found-ReadsIfAny false (bytes "<body") rest _ _
      (λ i tag at. first_body tag (index_byte-Tag rest i at))

-- Where no rule has a piece, the tag is not there or has no end.
missing_end :
    (name rest : Bytes) (end : Option ℕ) (f : ℕ → Piece)
    → (if has_tag_prefix rest name then Option.map f end else none) ≡ none
    → IsTag name rest
    → end ≡ none
missing_end name rest none f h tag = refl
missing_end name rest (some i) f h tag =
    absurd (ground (arith, (has_tag_prefix_iff name rest).1 tag))

no_body_end :
    {injected : Bool} {rest : Bytes}
    → injected ≡ false
    → try_body injected rest ≡ none
    → IsTag (bytes "<body") rest
    → Lacks b'>' rest
unfolding try_body
no_body_end {injected = true} first h tag = cc
no_body_end {injected = false} {rest} first h tag =
    index_byte-none b'>' rest (missing_end (bytes "<body") rest _ _ h tag)

-- Where no rule has a piece, nothing begins that could be taken out or changed.
nothing-Plain :
    (injected : Bool) (rest : Bytes)
    → try_script injected rest ≡ none
    → try_style injected rest ≡ none
    → try_link injected rest ≡ none
    → try_img injected rest ≡ none
    → try_body injected rest ≡ none
    → Plain injected rest
unfolding try_script try_style try_link try_img
nothing-Plain injected rest no_script no_style no_link no_img no_body = record {
  script = λ tag.
      index_fold-Occurs rest (bytes "</script>")
        (missing_end (bytes "<script") rest _ _ no_script tag);
  style = λ tag.
      index_fold-Occurs rest (bytes "</style>")
        (missing_end (bytes "<style") rest _ _ no_style tag);
  link = λ tag. index_byte-none b'>' rest (missing_end (bytes "<link") rest _ _ no_link tag);
  img = λ tag. index_byte-none b'>' rest (missing_end (bytes "<img") rest _ _ no_img tag);
  body = λ first. no_body_end first no_body;
}

or_else-Reads :
    (injected : Bool) (rest : Bytes) (o : Option Piece) (p : Piece)
    → ReadsIfAny injected rest o
    → (o ≡ none → Reads injected rest p)
    → Reads injected rest (or_else o p)
or_else-Reads injected rest none p h k = k refl
or_else-Reads injected rest (some q) p h k = h

tag_piece-Reads :
    (injected : Bool) (rest : Bytes)
    → take 1 rest ≡ b'<' ∷ []
    → Reads injected rest (tag_piece injected rest)
unfolding tag_piece
tag_piece-Reads injected rest h =
    or_else-Reads injected rest _ _ (try_script-ReadsIfAny injected rest) (λ no_script.
      or_else-Reads injected rest _ _ (try_style-ReadsIfAny injected rest) (λ no_style.
        or_else-Reads injected rest _ _ (try_link-ReadsIfAny injected rest) (λ no_link.
          or_else-Reads injected rest _ _ (try_img-ReadsIfAny injected rest) (λ no_img.
            or_else-Reads injected rest _ _ (try_body-ReadsIfAny injected rest) (λ no_body.
              subst (λ token. Token injected rest token (b'<' ∷ []) injected) (sym h)
                (less (nothing-Plain injected rest no_script no_style no_link no_img no_body)))))))

pub strip_from-Strips :
    (fuel : ℕ) (injected : Bool) (page out : Bytes)
    → strip_from fuel injected page ≡ some out
    → Strips injected page out
strip_from-Strips zero injected page out h = unfold strip_from in cc
strip_from-Strips (suc fuel) injected page out h = elim (Option-cases (index_byte b'<' page)) [
  | inl plain ↦
      let same : some page ≡ some out = sym (strip_from_text fuel injected page plain) ∙ h in
      let e : page ≡ out = ground (arith, same) in
      subst (Strips injected page) e (text (index_byte-none b'<' page plain))
  | inr (start, at) ↦
      let (left, e, written) =
        map-some _ _ (sym (strip_from_tag fuel injected page start at) ∙ h) in
      let rest = drop start page in
      let p = piece_at injected page start in
      subst (Strips injected page) written (
        markup (take start page) rest (take p.skip rest) (drop p.skip rest) p.out left
          (index_byte-some b'<' page start at).1 (sym (take-drop start page))
          (sym (take-drop p.skip rest))
          (tag_piece-Reads injected rest (ap (take 1) (index_byte-split b'<' page start at).1))
          (strip_from-Strips fuel p.injected (left_at injected page start) left e))
]
