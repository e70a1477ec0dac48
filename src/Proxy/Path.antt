-- ===== src/Proxy/Path.antt =====
-- proxy/proxy.go: joinPath.
use peakshield.Prelude.{
  ℕ, zero, suc, ◌≡◌, refl, ap, Bool, false, ◌||◌, ◌&&◌, [], ◌∷◌, ◌++◌, ◌==◌, if◌then◌else◌, arith,
  inl, inr, Bool-cases,
}
use peakshield.Prelude.Bytes.{Bytes, bytes, eqb}
use peakshield.Prelude.Search.{trim_left, trim_right, is_empty}

abbrev is_slash : ℕ → Bool
is_slash c = c == b'/'

unfoldable pub join_path : Bytes → Bytes → Bytes
join_path base req_path =
    if eqb base [] || eqb base (bytes "/")
    then req_path
    else trim_right is_slash base ++ (bytes "/" ++ trim_left is_slash req_path)

abbrev pub slashes : ℕ → Bytes
slashes zero = []
slashes (suc n) = b'/' ∷ slashes n

abbrev pub starts_with_slash : Bytes → Bool
starts_with_slash [] = false
starts_with_slash (c ∷ _) = is_slash c

abbrev pub ends_with_slash : Bytes → Bool
ends_with_slash [] = false
ends_with_slash (c ∷ []) = is_slash c
ends_with_slash (c ∷ d ∷ s) = ends_with_slash (d ∷ s)

trim_left-slash :
    (s : Bytes)
    → (m : ℕ) × (s ≡ slashes m ++ trim_left is_slash s)
      × (starts_with_slash (trim_left is_slash s) ≡ false)
trim_left-slash [] = (0, refl, refl)
trim_left-slash (c ∷ s) = elim (Bool-cases (is_slash c)) [
  | inl slash ↦
      let (m, e, none_left) = trim_left-slash s in
      (suc m, ground (arith, slash, e), rw slash none_left)
  | inr other ↦ (0, ground (arith, other), ground (arith, other))
]

-- One round of the trimming, with `kept` for what is kept of the bytes behind.
abbrev keep : ℕ → Bytes → Bytes
keep c [] = if is_slash c then [] else c ∷ []
keep c (d ∷ kept) = c ∷ d ∷ kept

keep-slash :
    (c : ℕ) (kept s : Bytes) (k : ℕ)
    → s ≡ kept ++ slashes k
    → ends_with_slash kept ≡ false
    → (k' : ℕ) × (c ∷ s ≡ keep c kept ++ slashes k') × (ends_with_slash (keep c kept) ≡ false)
keep-slash c [] s k e h = elim (Bool-cases (is_slash c)) [
  | inl slash ↦ (suc k, ground (arith, slash, e), ground (arith, slash))
  | inr other ↦ (k, ground (arith, other, e), ground (arith, other))
]
keep-slash c (d ∷ kept) s k e h = (k, ap (◌∷◌ c) e, h)

trim_right-keep : (c : ℕ) (s : Bytes) → trim_right is_slash (c ∷ s) ≡ keep c (trim_right is_slash s)
trim_right-keep c s = go (trim_right is_slash s)
  where
    go : (kept : Bytes) → (if is_slash c && is_empty kept then [] else c ∷ kept) ≡ keep c kept
    go [] = ground arith
    go (d ∷ kept) = ground arith

trim_right-slash :
    (s : Bytes)
    → (k : ℕ) × (s ≡ trim_right is_slash s ++ slashes k)
      × (ends_with_slash (trim_right is_slash s) ≡ false)
trim_right-slash [] = (0, refl, refl)
trim_right-slash (c ∷ s) =
    let (k, e, none_left) = trim_right-slash s in
    rw (trim_right-keep c s) (keep-slash c (trim_right is_slash s) s k e none_left)

-- Unless the base is empty or a single slash, exactly one slash stands where the base and the
-- request's path meet: slashes at the end of the base and at the start of the path are dropped, and
-- nothing else of either is.
pub join_path_boundary :
    (base req_path : Bytes)
    → eqb base [] ≡ false
    → eqb base (bytes "/") ≡ false
    → (b : Bytes) × (r : Bytes) × (k : ℕ) × (m : ℕ) × (join_path base req_path ≡ b ++ b'/' ∷ r)
      × (base ≡ b ++ slashes k)
      × (req_path ≡ slashes m ++ r)
      × (ends_with_slash b ≡ false)
      × (starts_with_slash r ≡ false)
unfolding join_path
join_path_boundary base req_path nonempty not_root =
    let (k, b_whole, b_end) = trim_right-slash base in
    let (m, r_whole, r_start) = trim_left-slash req_path in
    (
      trim_right is_slash base,
      trim_left is_slash req_path,
      k,
      m,
      rw (nonempty, not_root),
      b_whole,
      r_whole,
      b_end,
      r_start,
    )
