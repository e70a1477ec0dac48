-- ===== src/Stripper/Html/Tokens/Marks.antt =====
-- stripper/stripper.go: tags, blocks and words, and what hasTagPrefix and indexFold say of them.

use native.Mathlib.Numerals.{add-one}
use peakshield.Prelude.{
  ℕ, suc, ◌+◌, ◌≡◌, refl, sym, ap, ◌∙◌, Bool, true, false, [], ◌∷◌, none, some, length, take, drop,
  length-take-le, take_add, arith, Option-cases, Bool-cases, inl, inr, ltb, ◌≤◌, ◌<◌, ◌&&◌, ◌++◌,
  ◌==◌, map, length-append, append_assoc,
}
use peakshield.Prelude.Bytes.{Bytes, eqb_iff, to_lower}
use peakshield.Prelude.Search.{index_byte, index_byte-append, take_before, drop_before}
use peakshield.Prelude.Search.Laws.{index_byte-some}
use peakshield.Stripper.Scan.{starts_fold, is_boundary, boundary_after, has_tag_prefix, index_fold}
use peakshield.Stripper.Scan.Laws.{starts_fold-take, index_fold_first, index_fold-none}
use peakshield.Stripper.Html.Tokens.{Occurs, Edge, IsTag, Block, Tag, ReadsAt}

is_boundary-Edge : (c : ℕ) (b : Bytes) → is_boundary c ≡ true → Edge (c ∷ b)
unfolding is_boundary
is_boundary-Edge c b h = ground arith

Edge-is_boundary : (c : ℕ) (b : Bytes) → Edge (c ∷ b) → is_boundary c ≡ true
unfolding is_boundary
Edge-is_boundary c b h = ground arith

boundary_after-Edge : (b name : Bytes) → boundary_after b name ≡ true → Edge (drop (length name) b)
unfolding boundary_after
boundary_after-Edge [] [] h = tt
boundary_after-Edge (c ∷ b) [] h = is_boundary-Edge c b h
boundary_after-Edge [] (p ∷ name) h = tt
boundary_after-Edge (c ∷ b) (p ∷ name) h = boundary_after-Edge b name h

Edge-boundary_after :
    (b name : Bytes)
    → starts_fold b name ≡ true
    → Edge (drop (length name) b)
    → boundary_after b name ≡ true
unfolding boundary_after is_boundary starts_fold
Edge-boundary_after [] [] at edge = refl
Edge-boundary_after (c ∷ b) [] at edge = Edge-is_boundary c b edge
Edge-boundary_after [] (p ∷ name) at edge = cc
Edge-boundary_after (c ∷ b) (p ∷ name) at edge = Edge-boundary_after b name (ground arith) edge

-- A tag of the given name, as hasTagPrefix decides it.
pub has_tag_prefix_iff :
    (name rest : Bytes)
    → (has_tag_prefix rest name ≡ true → IsTag name rest)
      × (IsTag name rest → has_tag_prefix rest name ≡ true)
unfolding has_tag_prefix
has_tag_prefix_iff name rest =
    let read = starts_fold-take rest name in
    (
      λ h. record {
        named = (eqb_iff _ name).0 (sym read ∙ ground arith);
        edge = boundary_after-Edge rest name (ground arith);
      },
      λ tag.
          let at : starts_fold rest name ≡ true = read ∙ (eqb_iff _ name).1 tag.named in
          ground (arith, at, Edge-boundary_after rest name at tag.edge),
    )

-- Up to what indexFold finds.
pub index_fold-Block :
    (rest word : Bytes) (i : ℕ)
    → index_fold rest word ≡ some i
    → Block word rest (take (i + length word) rest)
index_fold-Block rest word i h =
    let (found, earlier) = index_fold_first rest word i h in
    record {
      body = take i rest;
      end = take (length word) (drop i rest);
      whole = take_add i (length word) rest;
      closed = found;
      first = λ j before at.
          let nowhere = earlier j (omega (arith, length-take-le i rest)) in
          absurd
            (ground (arith, nowhere, starts_fold-take (drop j rest) word, (eqb_iff _ word).1 at));
    }

pub index_fold-Occurs : (b word : Bytes) → index_fold b word ≡ none → ¬ Occurs word b
index_fold-Occurs b word h (i, at) = absurd (
    ground
      (arith, index_fold-none b word h i, starts_fold-take (drop i b) word, (eqb_iff _ word).1 at))

pub index_byte-Tag :
    (rest : Bytes) (i : ℕ) → index_byte b'>' rest ≡ some i → Tag (take (i + 1) rest)
index_byte-Tag rest i h =
    let (whole, first) = index_byte-some b'>' rest i h in
    record { inside = take i rest; whole = rw add-one whole; first = first }

-- One of the names begins with the other.
abbrev pub agree : Bytes → Bytes → Bool
agree [] b = true
agree (x ∷ a) [] = true
agree (x ∷ a) (y ∷ b) = x == y && agree a b

starts_fold-agree :
    (rest a b : Bytes) → starts_fold rest a ≡ true → starts_fold rest b ≡ true → agree a b ≡ true
unfolding starts_fold
starts_fold-agree rest [] b h k = refl
starts_fold-agree rest (x ∷ a) [] h k = refl
starts_fold-agree [] (x ∷ a) (y ∷ b) h k = cc
starts_fold-agree (c ∷ rest) (x ∷ a) (y ∷ b) h k =
    let more : agree a b ≡ true = starts_fold-agree rest a b (ground arith) (ground arith) in
    ground (arith, more)

-- A tag has one name.
pub other_name :
    (name other rest : Bytes)
    → agree name other ≡ false
    → IsTag name rest
    → has_tag_prefix rest other ≡ false
unfolding has_tag_prefix
other_name name other rest differ tag = elim (Bool-cases (starts_fold rest other)) [
  | inl at ↦ absurd (
      ground (
        arith,
        starts_fold-agree rest name other
            (starts_fold-take rest name ∙ (eqb_iff _ name).1 tag.named) at,
      ))
  | inr nowhere ↦ ground (arith, nowhere)
]

pub reads_fold : (word b : Bytes) (i : ℕ) → ReadsAt word b i → starts_fold (drop i b) word ≡ true
reads_fold word b i at = starts_fold-take (drop i b) word ∙ (eqb_iff _ word).1 at

-- indexFold finds the first place, where there is one.
index_fold_found :
    (word b : Bytes) (i : ℕ)
    → ReadsAt word b i
    → ((j : ℕ) → j < i → ¬ ReadsAt word b j)
    → index_fold b word ≡ some i
index_fold_found word b i at first = elim (Option-cases (index_fold b word)) [
  | inl nowhere ↦ absurd (ground (arith, index_fold-none b word nowhere i, reads_fold word b i at))
  | inr (k, found) ↦
      let (here, earlier) = index_fold_first b word k found in
      let least : i ≤ k = elim (Bool-cases (ltb k i)) [
        | inl lt ↦ absurd (first k (ground (arith, lt)) here)
        | inr ge ↦ ground (arith, ge)
      ] in
      let early : k ≤ i = elim (Bool-cases (ltb i k)) [
        | inl lt ↦
            absurd (ground (arith, lt, earlier i (ground (arith, lt)), reads_fold word b i at))
        | inr ge ↦ ground (arith, ge)
      ] in
      found ∙ ap some (omega arith)
]

pub index_fold_missing : (word b : Bytes) → ¬ Occurs word b → index_fold b word ≡ none
index_fold_missing word b h = elim (Option-cases (index_fold b word)) [
  | inl nowhere ↦ nowhere
  | inr (k, found) ↦ absurd (h (k, (index_fold_first b word k found).0))
]

length-map : (b : Bytes) → length (map to_lower b) ≡ length b
length-map [] = refl
length-map (x ∷ b) = ap suc (length-map b)

pub Block-index_fold :
    (word : Bytes) {rest token : Bytes} (more : Bytes) (block : Block word rest token)
    → rest ≡ token ++ more
    → (index_fold rest word ≡ some (length block.body))
      × (length block.body + length word ≡ length token)
Block-index_fold word {rest} {token} more block e =
    let b = block.body in
    let size : length word ≡ length block.end =
      ap length (sym block.closed) ∙ length-map block.end in
    let at : ReadsAt word rest (length b) =
      ap (λ t. map to_lower (take (length word) (drop (length b) t)))
        (e ∙ ap (λ t. t ++ more) block.whole ∙ append_assoc b block.end more)
      ∙ ap (λ t. map to_lower (take (length word) t)) (drop_before b (block.end ++ more))
      ∙ ap (λ n. map to_lower (take n (block.end ++ more))) size
      ∙ ap (map to_lower) (take_before block.end more)
      ∙ block.closed in
    (
      index_fold_found word rest (length b) at block.first,
      omega (arith, size, ap length block.whole, length-append b block.end),
    )

pub Tag-index_byte :
    {rest token : Bytes} (more : Bytes) (tag : Tag token)
    → rest ≡ token ++ more
    → (index_byte b'>' rest ≡ some (length tag.inside)) × (length tag.inside + 1 ≡ length token)
Tag-index_byte more tag e = (
  ap (index_byte b'>')
        (e ∙ ap (λ t. t ++ more) tag.whole ∙ append_assoc tag.inside (b'>' ∷ []) more)
      ∙ index_byte-append b'>' tag.inside (b'>' ∷ more) tag.first
          (unfold index_byte in ground arith),
  omega (arith, ap length tag.whole, length-append tag.inside (b'>' ∷ [])),
)
