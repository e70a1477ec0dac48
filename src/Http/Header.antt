-- ===== src/Http/Header.antt =====
-- http.Header: a map from canonical names to lists of values, as an association list.
use peakshield.Prelude.{
  ℕ, ◌-◌, ◌≡◌, refl, Bool, true, false, ◌&&◌, ◌||◌, List, [], ◌∷◌, ◌++◌, Option, none, some, leb,
  ◌==◌, if◌then◌else◌, arith,
}
use peakshield.Prelude.Bytes.{Bytes, bytes, eqb, eqb_iff, eqb_refl, to_lower}

abbrev pub Header : Type 0
Header = List (Bytes × List Bytes)

-- textproto: the bytes that may stand in a field name
unfoldable pub is_field_byte : ℕ → Bool
is_field_byte c =
    (leb b'0' c && leb c b'9')
    || (leb b'a' c && leb c b'z')
    || (leb b'A' c && leb c b'Z')
    || any_of (bytes "!#$%&'*+-.^_`|~")
  where
    any_of : Bytes → Bool
    any_of [] = false
    any_of (x ∷ xs) = c == x || any_of xs

unfoldable pub all_field_bytes : Bytes → Bool
unfolding is_field_byte
all_field_bytes [] = true
all_field_bytes (c ∷ s) = is_field_byte c && all_field_bytes s

to_upper : ℕ → ℕ
to_upper c = if leb b'a' c && leb c b'z' then c - 32 else c

-- Upper case at the start and after a dash, lower case elsewhere.
capitalize : Bool → Bytes → Bytes
unfolding to_upper to_lower
capitalize first [] = []
capitalize first (c ∷ s) = (if first then to_upper c else to_lower c) ∷ capitalize (c == b'-') s

-- textproto.CanonicalMIMEHeaderKey: a name with another byte in it is left as it is.
unfoldable pub canonical : Bytes → Bytes
unfolding all_field_bytes capitalize
canonical s = if all_field_bytes s then capitalize true s else s

-- The map operations, at a key that is used as it is.
unfoldable pub find : Bytes → Header → Option (List Bytes)
find k [] = none
find k ((j, v) ∷ h) = if eqb j k then some v else find k h

unfoldable pub assign : Bytes → List Bytes → Header → Header
assign k v [] = (k, v) ∷ []
assign k v ((j, w) ∷ h) = if eqb j k then (k, v) ∷ h else (j, w) ∷ assign k v h

unfoldable pub remove : Bytes → Header → Header
remove k [] = []
remove k ((j, w) ∷ h) = if eqb j k then remove k h else (j, w) ∷ remove k h

abbrev pub values_or_nil : Option (List Bytes) → List Bytes
values_or_nil none = []
values_or_nil (some v) = v

abbrev pub first_or_empty : List Bytes → Bytes
first_or_empty [] = []
first_or_empty (v ∷ _) = v

-- Header.Values: all values, none where the name is missing
unfoldable pub values : Bytes → Header → List Bytes
values name h = values_or_nil (find (canonical name) h)

-- Header.Get: the first value, or ""
unfoldable pub get : Bytes → Header → Bytes
get name h = first_or_empty (values_or_nil (find (canonical name) h))

-- Header.Set
unfoldable pub set : Bytes → Bytes → Header → Header
set name v h = assign (canonical name) (v ∷ []) h

-- Header.Add
unfoldable pub add : Bytes → Bytes → Header → Header
add name v h = assign (canonical name) (values_or_nil (find (canonical name) h) ++ v ∷ []) h

-- Header.Del
unfoldable pub del : Bytes → Header → Header
del name h = remove (canonical name) h

pub find-assign :
    (k j : Bytes) (v : List Bytes) (h : Header)
    → find j (assign k v h) ≡ (if eqb k j then some v else find j h)
unfolding find assign
find-assign k j v [] = refl
find-assign k j v ((i, w) ∷ h) =
    ground (arith, eqb_iff k j, eqb_iff i k, eqb_iff i j, find-assign k j v h)

pub find-remove :
    (k j : Bytes) (h : Header) → find j (remove k h) ≡ (if eqb k j then none else find j h)
unfolding find remove
find-remove k j [] = ground arith
find-remove k j ((i, w) ∷ h) =
    ground (arith, eqb_iff k j, eqb_iff i k, eqb_iff i j, find-remove k j h)

pub get-set_same : (name v : Bytes) (h : Header) → get name (set name v h) ≡ v
unfolding get set
get-set_same name v h =
    rw (find-assign (canonical name) (canonical name) (v ∷ []) h, eqb_refl (canonical name)) refl

pub get-set_other :
    (name other v : Bytes) (h : Header)
    → eqb (canonical name) (canonical other) ≡ false
    → get other (set name v h) ≡ get other h
unfolding get set
get-set_other name other v h ne =
    rw (find-assign (canonical name) (canonical other) (v ∷ []) h, ne) refl

pub find-set_other :
    (name k v : Bytes) (h : Header)
    → eqb (canonical name) k ≡ false
    → find k (set name v h) ≡ find k h
unfolding set
find-set_other name k v h ne = ground (arith, find-assign (canonical name) k (v ∷ []) h)
