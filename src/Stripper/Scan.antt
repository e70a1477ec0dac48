-- ===== src/Stripper/Scan.antt =====
-- stripper/stripper.go: hasTagPrefix and indexFold.
pub mod Laws
use peakshield.Prelude.{
  ℕ, suc, Bool, true, false, ◌&&◌, ◌||◌, List, [], ◌∷◌, Option, none, some, ◌==◌, if◌then◌else◌,
}
use mathlib.Core.Option
use peakshield.Prelude.Bytes.{Bytes, to_lower}

-- The comparison loop of both functions: `b`, in lower case, begins with `prefix`.
unfoldable pub starts_fold : Bytes → Bytes → Bool
unfolding to_lower
starts_fold b [] = true
starts_fold [] (p ∷ prefix) = false
starts_fold (c ∷ b) (p ∷ prefix) = to_lower c == p && starts_fold b prefix

-- What may follow a tag's name.
unfoldable pub is_boundary : ℕ → Bool
is_boundary c = c == b'>' || c == b' ' || c == b'\t' || c == b'\n' || c == b'\r' || c == b'/'

-- The word boundary behind the prefix; the end of the input is one.
unfoldable pub boundary_after : Bytes → Bytes → Bool
unfolding is_boundary
boundary_after [] [] = true
boundary_after (c ∷ b) [] = is_boundary c
boundary_after [] (p ∷ prefix) = false
boundary_after (c ∷ b) (p ∷ prefix) = boundary_after b prefix

unfoldable pub has_tag_prefix : Bytes → Bytes → Bool
unfolding starts_fold boundary_after
has_tag_prefix b prefix = starts_fold b prefix && boundary_after b prefix

-- indexFold(b, target), with `none` for -1. The target is found at the end of the input only if it
-- is empty.
unfoldable pub index_fold : Bytes → Bytes → Option ℕ
unfolding starts_fold
index_fold [] target = if starts_fold [] target then some 0 else none
index_fold (c ∷ b) target =
    let rest = index_fold b target in
    if starts_fold (c ∷ b) target then some 0 else Option.map suc rest
