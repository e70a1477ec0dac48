-- ===== src/Prelude/Search.antt =====
-- What the program uses of the packages bytes and strings: the search for a byte, containment,
-- splitting and trimming.
pub mod Laws
use Prim.Native.Nat.{ℕ, suc, ◌+◌, ◌<◌}
use native.Mathlib.Numerals.{add-one}
use mathlib.Core.Path.{◌≡◌, refl, ap}
use mathlib.Core.Logic.{◌≢◌, inl, inr}
use mathlib.Core.Bool.{Bool, true, false, ◌&&◌, ◌||◌}
use mathlib.Core.Option
use mathlib.Core.Option.{Option, none, some}
use mathlib.Core.List.{List, [], ◌∷◌, ◌++◌}
use native.Mathlib.Omega.{arith}
use peakshield.Prelude.Tests.{◌==◌, leb, if◌then◌else◌, Option-cases}
use peakshield.Prelude.Lists.{length, take, drop}
use peakshield.Prelude.Bytes.{Bytes}

-- bytes.IndexByte(s, c), with `none` for -1
unfoldable pub index_byte : ℕ → Bytes → Option ℕ
index_byte c [] = none
index_byte c (x ∷ s) = let rest = index_byte c s in if x == c then some 0 else Option.map suc rest

-- strings.LastIndexByte(s, c), with `none` for -1
unfoldable pub last_index_byte : ℕ → Bytes → Option ℕ
last_index_byte c [] = none
last_index_byte c (x ∷ s) = elim (last_index_byte c s) [
  | some i ↦ some (suc i)
  | none ↦ if x == c then some 0 else none
]

-- strings.IndexByte(s, c) >= 0
abbrev pub has_byte : ℕ → Bytes → Bool
has_byte c [] = false
has_byte c (x ∷ s) = x == c || has_byte c s

-- strings.HasPrefix
abbrev has_prefix : Bytes → Bytes → Bool
has_prefix s [] = true
has_prefix [] (p ∷ prefix) = false
has_prefix (c ∷ s) (p ∷ prefix) = c == p && has_prefix s prefix

-- strings.Contains
unfoldable pub contains : Bytes → Bytes → Bool
contains [] part = has_prefix [] part
contains (c ∷ s) part = has_prefix (c ∷ s) part || contains s part

-- strings.TrimLeft and strings.TrimRight, by the bytes for which the test holds
abbrev pub trim_left : (ℕ → Bool) → Bytes → Bytes
trim_left p [] = []
trim_left p (x ∷ s) = let rest = trim_left p s in if p x then rest else x ∷ s

abbrev pub is_empty : Bytes → Bool
is_empty [] = true
is_empty (_ ∷ _) = false

abbrev pub trim_right : (ℕ → Bool) → Bytes → Bytes
trim_right p [] = []
trim_right p (x ∷ s) = let rest = trim_right p s in if p x && is_empty rest then [] else x ∷ rest

-- ASCII white space: '\t' to '\r', and ' '
abbrev is_space : ℕ → Bool
is_space c = c == b' ' || (leb 9 c && leb c 13)

-- strings.TrimSpace, of ASCII text
abbrev pub trim_space : Bytes → Bytes
trim_space s = trim_right is_space (trim_left is_space s)

abbrev cons_first : ℕ → List Bytes → List Bytes
cons_first x [] = (x ∷ []) ∷ []
cons_first x (t ∷ ts) = (x ∷ t) ∷ ts

-- strings.Split(s, sep), at a separator of one byte
abbrev pub split : ℕ → Bytes → List Bytes
split sep [] = [] ∷ []
split sep (x ∷ s) = let rest = split sep s in if x == sep then [] ∷ rest else cons_first x rest

pub index_byte-lt : (c : ℕ) (b : Bytes) (i : ℕ) → index_byte c b ≡ some i → i < length b
unfolding index_byte
index_byte-lt c [] i h = cc
index_byte-lt c (x ∷ b) i h = elim (Option-cases (index_byte c b)) [
  | inl nowhere ↦ ground (arith, nowhere)
  | inr (k, later) ↦ ground (arith, later, index_byte-lt c b k later)
]

-- No byte is `c`.
abbrev pub Lacks : ℕ → Bytes → Type 0
Lacks c [] = Unit {0}
Lacks c (x ∷ b) = (x ≢ c) × Lacks c b

pub has_byte-append : (c : ℕ) (a b : Bytes) → has_byte c (a ++ b) ≡ (has_byte c a || has_byte c b)
has_byte-append c [] b = refl
has_byte-append c (x ∷ a) b = ground (arith, has_byte-append c a b)

pub has_byte-Lacks : (c : ℕ) (b : Bytes) → Lacks c b → has_byte c b ≡ false
has_byte-Lacks c [] h = refl
has_byte-Lacks c (x ∷ b) (ne, h) = ground (arith, has_byte-Lacks c b h)

-- Bytes that are not `c` in front only shift what is found.
pub index_byte-append :
    (c : ℕ) (before b : Bytes)
    → Lacks c before
    → index_byte c b ≡ some 0
    → index_byte c (before ++ b) ≡ some (length before)
unfolding index_byte
index_byte-append c [] b h at = at
index_byte-append c (x ∷ before) b (ne, h) at = ground (arith, index_byte-append c before b h at)

last_index_byte-Lacks : (c : ℕ) (b : Bytes) → Lacks c b → last_index_byte c b ≡ none
unfolding last_index_byte
last_index_byte-Lacks c [] h = refl
last_index_byte-Lacks c (x ∷ b) (ne, h) = ground (arith, last_index_byte-Lacks c b h)

-- The last `c` is the one that no `c` follows.
pub last_index_byte-append :
    (c : ℕ) (a b : Bytes) → Lacks c b → last_index_byte c (a ++ c ∷ b) ≡ some (length a)
unfolding last_index_byte
last_index_byte-append c [] b h = ground (arith, last_index_byte-Lacks c b h)
last_index_byte-append c (x ∷ a) b h = ground (arith, last_index_byte-append c a b h)

pub take_before : (before b : Bytes) → take (length before) (before ++ b) ≡ before
take_before [] b = refl
take_before (x ∷ before) b = ap (◌∷◌ x) (take_before before b)

pub drop_before : (before b : Bytes) → drop (length before) (before ++ b) ≡ b
drop_before [] b = refl
drop_before (x ∷ before) b = drop_before before b

drop-suc : (a : Bytes) (x : ℕ) (b : Bytes) → drop (suc (length a)) (a ++ x ∷ b) ≡ b
drop-suc [] x b = refl
drop-suc (y ∷ a) x b = drop-suc a x b

pub drop_after : (a : Bytes) (x : ℕ) (b : Bytes) → drop (length a + 1) (a ++ x ∷ b) ≡ b
drop_after a x b = rw add-one (drop-suc a x b)
