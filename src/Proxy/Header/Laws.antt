-- ===== src/Proxy/Header/Laws.antt =====
-- proxy/proxy.go: which header fields pass the proxy.
use peakshield.Prelude.{
  ◌≡◌, refl, sym, ap, ◌∙◌, Bool, false, ◌||◌, List, [], ◌∷◌, ◌++◌, append_assoc, append-nil, none,
  if◌then◌else◌, arith, Bool-cases, inl, inr,
}
use peakshield.Prelude.Bytes.{Bytes, bytes, eqb, eqb_iff}
use peakshield.Prelude.Search.{split, trim_space}
use peakshield.Http.Header.{
  Header, canonical, find, assign, values_or_nil, first_or_empty, find-assign, find-remove,
}
use peakshield.Http.Header
use peakshield.Proxy.Header.{
  one_of, add_values, copy_request_headers, copy_response_headers, excluded_response_headers,
  delete_nominated, delete_all, sanitize_hop_by_hop_headers, hop_by_hop_headers,
}

-- The values that a header map holds under the key `k`.
abbrev pub values_at : Bytes → Header → List Bytes
values_at k h = values_or_nil (find k h)

-- The values that all entries of a list give for the canonical key `k`, in their order.
abbrev pub all_values : Bytes → Header → List Bytes
all_values k [] = []
all_values k ((key, vs) ∷ src) = (if eqb (canonical key) k then vs else []) ++ all_values k src

-- Without the entries that are not forwarded.
abbrev pub forwarded_entries : Header → Header
forwarded_entries [] = []
forwarded_entries ((key, vs) ∷ src) =
    if one_of key excluded_response_headers
    then forwarded_entries src
    else (key, vs) ∷ forwarded_entries src

values_at-add :
    (k name v : Bytes) (h : Header)
    → values_at k (Header.add name v h)
      ≡ values_at k h ++ (if eqb (canonical name) k then v ∷ [] else [])
unfolding Header.add
values_at-add k name v h = elim (Bool-cases (eqb (canonical name) k)) [
  | inl same ↦
      let e = (eqb_iff (canonical name) k).0 same in
      rw (find-assign (canonical name) k (values_at (canonical name) h ++ v ∷ []) h, same, e) refl
  | inr other ↦
      rw (find-assign (canonical name) k (values_at (canonical name) h ++ v ∷ []) h, other)
        (sym (append-nil (values_at k h)))
]

values_at-add_values :
    (k key : Bytes) (vs : List Bytes) (h : Header)
    → values_at k (add_values key vs h)
      ≡ values_at k h ++ (if eqb (canonical key) k then vs else [])
unfolding add_values
values_at-add_values k key [] h = elim (Bool-cases (eqb (canonical key) k)) [
  | inl same ↦ rw same (sym (append-nil (values_at k h)))
  | inr other ↦ rw other (sym (append-nil (values_at k h)))
]
values_at-add_values k key (v ∷ vs) h =
    values_at-add_values k key vs (Header.add key v h)
    ∙ (elim (Bool-cases (eqb (canonical key) k)) [
      | inl same ↦ rw (values_at-add k key v h, same) (append_assoc (values_at k h) (v ∷ []) vs)
      | inr other ↦
          rw (values_at-add k key v h, other) (ap (λ x. x ++ []) (append-nil (values_at k h)))
    ])

-- Copying request headers adds, under every field name, all values that the source gives for it, in
-- their order, and changes nothing else.
pub values-copy_request_headers :
    (k : Bytes) (dst src : Header)
    → values_at k (copy_request_headers dst src) ≡ values_at k dst ++ all_values k src
unfolding copy_request_headers
values-copy_request_headers k dst [] = sym (append-nil (values_at k dst))
values-copy_request_headers k dst ((key, vs) ∷ src) =
    values-copy_request_headers k (add_values key vs dst) src
    ∙ ap (λ x. x ++ all_values k src) (values_at-add_values k key vs dst)
    ∙ append_assoc (values_at k dst) (if eqb (canonical key) k then vs else []) (all_values k src)

-- Copying response headers does so for the entries that are not on the list of the excluded ones.
pub values-copy_response_headers :
    (k : Bytes) (dst src : Header)
    → values_at k (copy_response_headers dst src)
      ≡ values_at k dst ++ all_values k (forwarded_entries src)
unfolding copy_response_headers
values-copy_response_headers k dst [] = sym (append-nil (values_at k dst))
values-copy_response_headers k dst ((key, vs) ∷ src) =
    elim (Bool-cases (one_of key excluded_response_headers)) [
      | inl excluded ↦ rw excluded (values-copy_response_headers k dst src)
      | inr passes ↦ rw passes (
          values-copy_response_headers k (add_values key vs dst) src
          ∙ ap (λ x. x ++ all_values k (forwarded_entries src)) (values_at-add_values k key vs dst)
          ∙ append_assoc (values_at k dst) (if eqb (canonical key) k then vs else [])
              (all_values k (forwarded_entries src)))
    ]

-- A deletion of some of the names that stand for the key `k`.
abbrev pub names_key : Bytes → List Bytes → Bool
names_key k [] = false
names_key k (name ∷ names) = eqb (canonical name) k || names_key k names

-- The key `k` is named by a token of a Connection header.
abbrev pub nominates : Bytes → List Bytes → Bool
nominates k [] = false
nominates k (token ∷ tokens) =
    (if eqb (trim_space token) [] then false else eqb (canonical (trim_space token)) k)
    || nominates k tokens

find-delete_all :
    (k : Bytes) (names : List Bytes) (h : Header)
    → find k (delete_all names h) ≡ (if names_key k names then none else find k h)
unfolding delete_all Header.del
find-delete_all k [] h = refl
find-delete_all k (name ∷ names) h =
    ground (arith, find-delete_all k names (Header.del name h), find-remove (canonical name) k h)

find-delete_nominated :
    (k : Bytes) (tokens : List Bytes) (h : Header)
    → find k (delete_nominated tokens h) ≡ (if nominates k tokens then none else find k h)
unfolding delete_nominated Header.del
find-delete_nominated k [] h = refl
find-delete_nominated k (token ∷ tokens) h = elim (Bool-cases (eqb (trim_space token) [])) [
  | inl blank ↦ rw blank (find-delete_nominated k tokens h)
  | inr named ↦ rw named (
      find-delete_nominated k tokens (Header.del (trim_space token) h)
      ∙ ground (arith, find-remove (canonical (trim_space token)) k h))
]

-- Sanitizing removes exactly the fields of the standard list and the fields that the value of the
-- first Connection line names, separated by commas; every other field keeps its values.
pub find-sanitize :
    (k : Bytes) (h : Header)
    → find k (sanitize_hop_by_hop_headers h) ≡ (
        if names_key k hop_by_hop_headers
          || nominates k (split b',' (Header.get (bytes "Connection") h))
        then none
        else find k h)
unfolding sanitize_hop_by_hop_headers
find-sanitize k h =
    find-delete_all k hop_by_hop_headers _
    ∙ ground (
      arith,
      find-delete_nominated k (split b',' (Header.get (bytes "Connection") h)) h,
      eqb_iff (Header.get (bytes "Connection") h) [],
    )
