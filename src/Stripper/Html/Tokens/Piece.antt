-- ===== src/Stripper/Html/Tokens/Piece.antt =====
-- stripper/stripper.go: what the rules of stripHTML make of each token.
use mathlib.Core.Option
use peakshield.Prelude.{
  ℕ, ◌≡◌, refl, ap, ◌∙◌, Bool, true, false, [], ◌∷◌, ◌++◌, Option, none, some, length, take, arith,
  Option-cases, Bool-cases, inl, inr, ltb, if◌then◌else◌,
}
use peakshield.Prelude.Bytes.{Bytes, bytes}
use peakshield.Prelude.Search.{Lacks, take_before}
use peakshield.Prelude.Search.Laws.{index_byte_missing}
use peakshield.Stripper.Scan.{has_tag_prefix, index_fold}
use peakshield.Stripper.Scan.Laws.{index_fold-none}
use peakshield.Stripper.Html.{
  Piece, notice, is_stylesheet, try_script, try_style, try_link, try_img, try_body, tag_piece,
}
use peakshield.Stripper.Html.Tokens.{
  Occurs, IsTag, Block, Tag, Plain, Token, script, large_style, small_style, stylesheet, other_link,
  image, first_body, less,
}
use peakshield.Stripper.Html.Tokens.Marks.{
  has_tag_prefix_iff, agree, other_name, reads_fold, index_fold_missing, Block-index_fold,
  Tag-index_byte,
}

-- What a rule makes of a tag that is there and has an end, and of one that is not there or has none.
present :
    (name rest : Bytes) {end : Option ℕ} (f : ℕ → Piece) {i : ℕ}
    → IsTag name rest
    → end ≡ some i
    → (if has_tag_prefix rest name then Option.map f end else none) ≡ some (f i)
present name rest f tag at = rw ((has_tag_prefix_iff name rest).1 tag, at) refl

absent :
    (name other rest : Bytes) (end : Option ℕ) (f : ℕ → Piece)
    → agree name other ≡ false
    → IsTag name rest
    → (if has_tag_prefix rest other then Option.map f end else none) ≡ none
absent name other rest end f differ tag = rw (other_name name other rest differ tag) refl

endless :
    (name rest : Bytes) {end : Option ℕ} (f : ℕ → Piece)
    → (IsTag name rest → end ≡ none)
    → (if has_tag_prefix rest name then Option.map f end else none) ≡ none
endless name rest {end} f none_there = elim (Bool-cases (has_tag_prefix rest name)) [
  | inl tag ↦ rw (tag, none_there ((has_tag_prefix_iff name rest).0 tag)) refl
  | inr other ↦ rw other refl
]

abbrev pub piece : Bytes → Bytes → Bool → Piece
piece token out after = record { out = out; skip = length token; injected = after }

-- A tag of another name is not for the rule.
module _ (name rest : Bytes) (tag : IsTag name rest) (n : Bool) where
  no_script : agree name (bytes "<script") ≡ false → try_script n rest ≡ none
  unfolding try_script
  no_script differ = absent name (bytes "<script") rest _ _ differ tag

  no_style : agree name (bytes "<style") ≡ false → try_style n rest ≡ none
  unfolding try_style
  no_style differ = absent name (bytes "<style") rest _ _ differ tag

  no_link : agree name (bytes "<link") ≡ false → try_link n rest ≡ none
  unfolding try_link
  no_link differ = absent name (bytes "<link") rest _ _ differ tag

  no_img : agree name (bytes "<img") ≡ false → try_img n rest ≡ none
  unfolding try_img
  no_img differ = absent name (bytes "<img") rest _ _ differ tag

no_body :
    (n : Bool) (rest : Bytes)
    → (n ≡ false → IsTag (bytes "<body") rest → Lacks b'>' rest)
    → try_body n rest ≡ none
unfolding try_body
no_body true rest h = refl
no_body false rest h =
    endless (bytes "<body") rest _ (λ tag. index_byte_missing b'>' rest (h refl tag))

Plain-piece :
    (n : Bool) (rest : Bytes) → Plain n rest → tag_piece n rest ≡ piece (b'<' ∷ []) (b'<' ∷ []) n
unfolding tag_piece try_script try_style try_link try_img
Plain-piece n rest plain =
    rw
      (
        endless (bytes "<script") rest _
            (λ tag. index_fold_missing (bytes "</script>") rest (plain.script tag)),
        endless (bytes "<style") rest _
            (λ tag. index_fold_missing (bytes "</style>") rest (plain.style tag)),
        endless (bytes "<link") rest _ (λ tag. index_byte_missing b'>' rest (plain.link tag)),
        endless (bytes "<img") rest _ (λ tag. index_byte_missing b'>' rest (plain.img tag)),
        no_body n rest plain.body,
      )
      refl

script-piece :
    (n : Bool) {rest token : Bytes} (more : Bytes)
    → IsTag (bytes "<script") rest
    → Block (bytes "</script>") rest token
    → rest ≡ token ++ more
    → tag_piece n rest ≡ piece token [] n
unfolding tag_piece try_script
script-piece n more tag block e =
    let (found, size) = Block-index_fold (bytes "</script>") more block e in
    rw (present (bytes "<script") _ _ tag found) (rw size refl)

style-piece :
    (n : Bool) {rest token : Bytes} (more : Bytes)
    → IsTag (bytes "<style") rest
    → Block (bytes "</style>") rest token
    → rest ≡ token ++ more
    → tag_piece n rest ≡ piece token (if ltb 2048 (length token) then [] else token) n
unfolding tag_piece try_style
style-piece n {rest} {token} more tag block e =
    let (found, size) = Block-index_fold (bytes "</style>") more block e in
    rw (no_script (bytes "<style") rest tag n refl, present (bytes "<style") rest _ tag found, size)
      (rw (ap (take (length token)) e ∙ take_before token more) refl)

link-piece :
    (n : Bool) {rest token : Bytes} (more : Bytes)
    → IsTag (bytes "<link") rest
    → Tag token
    → rest ≡ token ++ more
    → tag_piece n rest ≡ piece token (if is_stylesheet token then [] else token) n
unfolding tag_piece try_link
link-piece n {rest} {token} more tag ends e =
    let (found, size) = Tag-index_byte more ends e in
    rw
      (
        no_script (bytes "<link") rest tag n refl,
        no_style (bytes "<link") rest tag n refl,
        present (bytes "<link") rest _ tag found,
        size,
      )
      (rw (ap (take (length token)) e ∙ take_before token more) refl)

img-piece :
    (n : Bool) {rest token : Bytes} (more : Bytes)
    → IsTag (bytes "<img") rest
    → Tag token
    → rest ≡ token ++ more
    → tag_piece n rest ≡ piece token (bytes "<span>[img]</span>") n
unfolding tag_piece try_img
img-piece n {rest} {token} more tag ends e =
    let (found, size) = Tag-index_byte more ends e in
    rw
      (
        no_script (bytes "<img") rest tag n refl,
        no_style (bytes "<img") rest tag n refl,
        no_link (bytes "<img") rest tag n refl,
        present (bytes "<img") rest _ tag found,
        size,
      )
      refl

body-piece :
    {rest token : Bytes} (more : Bytes)
    → IsTag (bytes "<body") rest
    → Tag token
    → rest ≡ token ++ more
    → tag_piece false rest ≡ piece token (token ++ notice) true
unfolding tag_piece try_body
body-piece {rest} {token} more tag ends e =
    let (found, size) = Tag-index_byte more ends e in
    rw
      (
        no_script (bytes "<body") rest tag false refl,
        no_style (bytes "<body") rest tag false refl,
        no_link (bytes "<body") rest tag false refl,
        no_img (bytes "<body") rest tag false refl,
        present (bytes "<body") rest _ tag found,
        size,
      )
      (rw (ap (take (length token)) e ∙ take_before token more) refl)

is_stylesheet-Occurs :
    (token : Bytes) → Occurs (bytes "stylesheet") token → is_stylesheet token ≡ true
unfolding is_stylesheet
is_stylesheet-Occurs token (i, at) = elim (Option-cases (index_fold token (bytes "stylesheet"))) [
  | inl nowhere ↦ absurd (
      ground (
        arith,
        index_fold-none token (bytes "stylesheet") nowhere i,
        reads_fold (bytes "stylesheet") token i at,
      ))
  | inr (k, found) ↦ rw (found, is_stylesheet) refl
]

is_stylesheet-absent :
    (token : Bytes) → ¬ Occurs (bytes "stylesheet") token → is_stylesheet token ≡ false
unfolding is_stylesheet
is_stylesheet-absent token h =
    rw (index_fold_missing (bytes "stylesheet") token h, is_stylesheet) refl

-- A token leaves the loop no choice.
pub Token-piece :
    {n after : Bool} {rest token out : Bytes} (more : Bytes)
    → Token n rest token out after
    → rest ≡ token ++ more
    → tag_piece n rest ≡ piece token out after
Token-piece {n = n} more (script tag block) e = script-piece n more tag block e
Token-piece {n = n} {token = token} more (large_style tag block large) e =
    let big : ltb 2048 (length token) ≡ true = ground arith in
    style-piece n more tag block e ∙ rw big refl
Token-piece {n = n} {token = token} more (small_style tag block small) e =
    let fits : ltb 2048 (length token) ≡ false = ground arith in
    style-piece n more tag block e ∙ rw fits refl
Token-piece {n = n} {token = token} more (stylesheet tag ends sheet) e =
    link-piece n more tag ends e ∙ rw (is_stylesheet-Occurs token sheet) refl
Token-piece {n = n} {token = token} more (other_link tag ends other) e =
    link-piece n more tag ends e ∙ rw (is_stylesheet-absent token other) refl
Token-piece {n = n} more (image tag ends) e = img-piece n more tag ends e
Token-piece more (first_body tag ends) e = body-piece more tag ends e
Token-piece {n = n} {rest = rest} more (less plain) e = Plain-piece n rest plain
