-- ===== src/Stripper/Html.antt =====
-- stripper/stripper.go: stripHTML.
pub mod Total
pub mod Size
pub mod Clean
pub mod Tokens
use mathlib.Core.Option
use peakshield.Prelude.{
  ℕ, zero, suc, ◌+◌, Bool, true, false, List, [], ◌∷◌, ◌++◌, Option, none, some, length, take, drop,
  ltb, if◌then◌else◌,
}
use peakshield.Prelude.Search.{index_byte}
use peakshield.Prelude.Bytes.{Bytes, bytes}
use peakshield.Stripper.Scan.{has_tag_prefix, index_fold}

-- What the loop's body does at a `<`: it writes `out`, and advances by `skip`.
pub record Piece : Type 0 where
  pub out : Bytes
  pub skip : ℕ
  pub injected : Bool  -- bodyInjected, afterwards

unfoldable pub notice : Bytes
notice =
    bytes "<div id=\"peakshield-notice\" style=\"background:#f59e0b;color:#fff;text-align:center;"
    ++ bytes "padding:10px;font-family:sans-serif;font-weight:bold;z-index:999999;"
    ++ bytes "position:relative;border-bottom:2px solid #b45309\">⚠\u{fe0f} PeakShield Active: "
    ++ bytes "High Traffic Mode. Assets stripped to conserve bandwidth.</div>"

-- 1. <script> blocks go.
unfoldable pub try_script : Bool → Bytes → Option Piece
try_script injected rest =
    if has_tag_prefix rest (bytes "<script")
    then Option.map (λ end. record { out = []; skip = end + 9; injected = injected })
        (index_fold rest (bytes "</script>"))
    else none

-- 2. <style> blocks go if they are larger than 2 KB.
unfoldable pub try_style : Bool → Bytes → Option Piece
try_style injected rest =
    if has_tag_prefix rest (bytes "<style")
    then Option.map
        (λ end. record {
          out = if ltb 2048 (end + 8) then [] else take (end + 8) rest;
          skip = end + 8;
          injected = injected;
        })
        (index_fold rest (bytes "</style>"))
    else none

-- `indexFold(tag, "stylesheet") != -1`
unfoldable pub is_stylesheet : Bytes → Bool
is_stylesheet tag = elim (index_fold tag (bytes "stylesheet")) [ none ↦ false | some _ ↦ true ]

-- 3. <link> tags of stylesheets go.
unfoldable pub try_link : Bool → Bytes → Option Piece
unfolding is_stylesheet
try_link injected rest =
    if has_tag_prefix rest (bytes "<link")
    then Option.map
        (λ end. record {
          out = let tag = take (end + 1) rest in if is_stylesheet tag then [] else tag;
          skip = end + 1;
          injected = injected;
        })
        (index_byte b'>' rest)
    else none

-- 4. <img> tags are replaced.
unfoldable pub try_img : Bool → Bytes → Option Piece
try_img injected rest =
    if has_tag_prefix rest (bytes "<img")
    then Option.map
        (λ end. record { out = bytes "<span>[img]</span>"; skip = end + 1; injected = injected })
        (index_byte b'>' rest)
    else none

-- 5. The notice goes behind the first <body>.
unfoldable pub try_body : Bool → Bytes → Option Piece
unfolding notice
try_body true rest = none
try_body false rest =
    if has_tag_prefix rest (bytes "<body")
    then Option.map
        (λ end. record { out = take (end + 1) rest ++ notice; skip = end + 1; injected = true })
        (index_byte b'>' rest)
    else none

-- The first that applies, and else the `<` alone.
abbrev pub or_else : Option Piece → Piece → Piece
or_else none p = p
or_else (some q) p = q

unfoldable pub tag_piece : Bool → Bytes → Piece
unfolding try_script try_style try_link try_img try_body
tag_piece injected rest = or_else (try_script injected rest) (
    or_else (try_style injected rest) (
      or_else (try_link injected rest) (
        or_else (try_img injected rest) (
          or_else (try_body injected rest)
            (record { out = b'<' ∷ []; skip = 1; injected = injected })))))

-- The loop, with fuel; `none` means that the fuel ran out.
unfoldable pub strip_from : ℕ → Bool → Bytes → Option Bytes
unfolding tag_piece
strip_from zero injected input = none
strip_from (suc fuel) injected [] = some []
strip_from (suc fuel) injected (c ∷ input) = elim (index_byte b'<' (c ∷ input)) [
  | none ↦ some (c ∷ input)
  | some start ↦
      let rest = drop start (c ∷ input) in
      let p = tag_piece injected rest in
      Option.map (λ out. take start (c ∷ input) ++ p.out ++ out)
        (strip_from fuel p.injected (drop p.skip rest))
]

-- stripHTML: as many rounds as there are bytes are enough.
unfoldable pub strip_html : Bytes → Option Bytes
unfolding strip_from
strip_html input = strip_from (suc (length input)) false input
