-- ===== src/Stripper/Html/Tokens.antt =====
-- stripper/stripper.go: what the comments of stripHTML say of a page, read as a list of tokens.
pub mod Marks
pub mod Sound
pub mod Piece
pub mod Complete
use peakshield.Prelude.{
  ℕ, ◌+◌, ◌≤◌, ◌<◌, ◌≡◌, ◌⊎◌, Bool, true, false, List, [], ◌∷◌, ◌++◌, length, take, drop, map,
}
use peakshield.Prelude.Bytes.{Bytes, bytes, to_lower}
use peakshield.Prelude.Search.{Lacks}
use peakshield.Stripper.Html.{notice}

-- At place `i` the text reads like the word, whatever the case of its letters.
abbrev pub ReadsAt : Bytes → Bytes → ℕ → Type 0
ReadsAt word b i = map to_lower (take (length word) (drop i b)) ≡ word

abbrev pub Occurs : Bytes → Bytes → Type 0
Occurs word b = (i : ℕ) × ReadsAt word b i

-- What may stand behind a tag's name: nothing, or one of these bytes.
abbrev pub Edge : Bytes → Type 0
Edge [] = Unit {0}
Edge (c ∷ b) =
    (c ≡ b'>') ⊎ ((c ≡ b' ') ⊎ ((c ≡ b'\t') ⊎ ((c ≡ b'\n') ⊎ ((c ≡ b'\r') ⊎ (c ≡ b'/')))))

-- The text begins with a tag of the given name: the name ends where the word ends.
pub record IsTag (name rest : Bytes) : Type 0 where
  named : ReadsAt name rest 0
  edge : Edge (drop (length name) rest)

-- The token is what stands in front of the rest, up to the first closing tag and with it.
pub record Block (closing rest token : Bytes) : Type 0 where
  body : Bytes
  end : Bytes
  whole : token ≡ body ++ end
  closed : map to_lower end ≡ closing
  first : (i : ℕ) → i < length body → ¬ ReadsAt closing rest i

-- The token is a tag up to its first `>`.
pub record Tag (token : Bytes) : Type 0 where
  inside : Bytes
  whole : token ≡ inside ++ b'>' ∷ []
  first : Lacks b'>' inside

-- Nothing that stripHTML knows begins here, or it has no end.
pub record Plain (injected : Bool) (rest : Bytes) : Type 0 where
  script : IsTag (bytes "<script") rest → ¬ Occurs (bytes "</script>") rest
  style : IsTag (bytes "<style") rest → ¬ Occurs (bytes "</style>") rest
  link : IsTag (bytes "<link") rest → Lacks b'>' rest
  img : IsTag (bytes "<img") rest → Lacks b'>' rest
  body : injected ≡ false → IsTag (bytes "<body") rest → Lacks b'>' rest

-- The text `rest` begins with a token; `out` is written for it. The two Booleans say whether the
-- notice has been written before it, and behind it.
pub data Token : Bool → Bytes → Bytes → Bytes → Bool → Type 0 where
  script :
      {n : Bool} {rest token : Bytes}
      → IsTag (bytes "<script") rest
      → Block (bytes "</script>") rest token
      → Token n rest token [] n
  large_style :
      {n : Bool} {rest token : Bytes}
      → IsTag (bytes "<style") rest
      → Block (bytes "</style>") rest token
      → 2048 < length token
      → Token n rest token [] n
  small_style :
      {n : Bool} {rest token : Bytes}
      → IsTag (bytes "<style") rest
      → Block (bytes "</style>") rest token
      → length token ≤ 2048
      → Token n rest token token n
  stylesheet :
      {n : Bool} {rest token : Bytes}
      → IsTag (bytes "<link") rest
      → Tag token
      → Occurs (bytes "stylesheet") token
      → Token n rest token [] n
  other_link :
      {n : Bool} {rest token : Bytes}
      → IsTag (bytes "<link") rest
      → Tag token
      → ¬ Occurs (bytes "stylesheet") token
      → Token n rest token token n
  image :
      {n : Bool} {rest token : Bytes}
      → IsTag (bytes "<img") rest
      → Tag token
      → Token n rest token (bytes "<span>[img]</span>") n
  first_body :
      {rest token : Bytes}
      → IsTag (bytes "<body") rest
      → Tag token
      → Token false rest token (token ++ notice) true
  less : {n : Bool} {rest : Bytes} → Plain n rest → Token n rest (b'<' ∷ []) (b'<' ∷ []) n

-- A page, and what is to be written for it: text without a `<` stays as it is.
pub data Strips : Bool → Bytes → Bytes → Type 0 where
  text : {n : Bool} {page : Bytes} → Lacks b'<' page → Strips n page page
  markup :
      {n after : Bool} {page : Bytes} (before rest token more out left : Bytes)
      → Lacks b'<' before
      → page ≡ before ++ rest
      → rest ≡ token ++ more
      → Token n rest token out after
      → Strips after more left
      → Strips n page (before ++ out ++ left)
