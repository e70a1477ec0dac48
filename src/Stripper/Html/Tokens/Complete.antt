-- ===== src/Stripper/Html/Tokens/Complete.antt =====
-- stripper/stripper.go: the tokens of a page are the only ones that stripHTML can see in it.

use peakshield.Prelude.{
  ℕ, zero, suc, ◌<◌, ◌≡◌, refl, sym, ap, ◌∙◌, Bool, true, false, [], ◌∷◌, ◌++◌, some, length, drop,
  length-append, arith,
}
use peakshield.Prelude.Bytes.{Bytes, to_lower}
use peakshield.Prelude.Search.{index_byte, index_byte-append, take_before, drop_before}
use peakshield.Prelude.Search.Laws.{index_byte_missing}
use peakshield.Stripper.Scan.{starts_fold}
use peakshield.Stripper.Html.{strip_from, strip_html}
use peakshield.Stripper.Html.Tokens.Piece.{Token-piece}
use peakshield.Stripper.Html.Tokens.Marks.{reads_fold}
use peakshield.Stripper.Html.Total.{
  strip_html_total, tag_piece-skip, strip_from_text, strip_from_tag,
}
use peakshield.Stripper.Html.Tokens.{
  IsTag, Token, script, large_style, small_style, stylesheet, other_link, image, first_body, less,
  Strips, text, markup,
}
use peakshield.Stripper.Html.Tokens.Sound.{strip_from-Strips}

starts_less :
    (rest name : Bytes) → starts_fold rest (b'<' ∷ name) ≡ true → index_byte b'<' rest ≡ some 0
unfolding starts_fold index_byte to_lower
starts_less [] name h = cc
starts_less (c ∷ rest) name h = ground arith

IsTag-less : (name rest : Bytes) → IsTag (b'<' ∷ name) rest → index_byte b'<' rest ≡ some 0
IsTag-less name rest tag = starts_less rest name (reads_fold (b'<' ∷ name) rest 0 tag.named)

Token-less :
    {n after : Bool} {rest token out : Bytes} (more : Bytes)
    → Token n rest token out after
    → rest ≡ token ++ more
    → index_byte b'<' rest ≡ some 0
Token-less {rest = rest} more (script tag block) e = IsTag-less _ rest tag
Token-less {rest = rest} more (large_style tag block large) e = IsTag-less _ rest tag
Token-less {rest = rest} more (small_style tag block small) e = IsTag-less _ rest tag
Token-less {rest = rest} more (stylesheet tag ends sheet) e = IsTag-less _ rest tag
Token-less {rest = rest} more (other_link tag ends other) e = IsTag-less _ rest tag
Token-less {rest = rest} more (image tag ends) e = IsTag-less _ rest tag
Token-less {rest = rest} more (first_body tag ends) e = IsTag-less _ rest tag
Token-less more (less plain) e = ap (index_byte b'<') e ∙ (unfold index_byte in ground arith)

Strips-strip_from :
    (fuel : ℕ) {n : Bool} {page out : Bytes}
    → length page < fuel
    → Strips n page out
    → strip_from fuel n page ≡ some out
Strips-strip_from zero h tokens = absurd (omega arith)
Strips-strip_from (suc fuel) {n} {page} h (text plain) =
    strip_from_text fuel n page (index_byte_missing b'<' page plain)
Strips-strip_from (suc fuel) {n} h (markup before rest token more out left plain e f t tokens) =
    let begins = Token-less more t f in
    let whole = length-append before rest in
    let parts = length-append token more in
    let known = Token-piece more t f in
    let left_lt : length more < fuel = omega (
      arith,
      ap length e,
      whole,
      ap length f,
      parts,
      tag_piece-skip n rest,
      ap (λ p. p.skip) known,
    ) in
    ap (strip_from (suc fuel) n) e
    ∙ strip_from_tag fuel n (before ++ rest) (length before)
        (index_byte-append b'<' before rest plain begins)
    ∙ rw
        (
          drop_before before rest,
          take_before before rest,
          known,
          ap (drop (length token)) f ∙ drop_before token more,
          Strips-strip_from fuel left_lt tokens,
        )
        refl

-- stripHTML ends on every page. It writes what the tokens of the page call for: script blocks, style
-- blocks of more than 2048 bytes and stylesheet links go, images are replaced, the notice comes once,
-- behind the first body tag, and all else stays, tags that have no end included. No other output
-- fits the tokens.
pub strip_html_lem :
    (page : Bytes)
    → (out : Bytes) × (strip_html page ≡ some out)
      × Strips false page out
      × ((other : Bytes) → Strips false page other → other ≡ out)
strip_html_lem page =
    let (out, ends) = strip_html_total page in
    let run : strip_from (suc (length page)) false page ≡ some out = unfold strip_html in ends in
    (
      out,
      ends,
      strip_from-Strips (suc (length page)) false page out run,
      λ other tokens.
          let same : some other ≡ some out =
            sym (Strips-strip_from (suc (length page)) (omega arith) tokens) ∙ run in
          ground (arith, same),
    )
