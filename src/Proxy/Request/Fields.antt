-- ===== src/Proxy/Request/Fields.antt =====
-- proxy/proxy.go: the header fields that buildBackendRequest sets, and those that it leaves.
use peakshield.Prelude.{
  ◌≡◌, refl, ap, ◌∙◌, false, List, [], ◌∷◌, ◌++◌, if◌then◌else◌, arith, Bool-cases, inl, inr,
}
use peakshield.Prelude.Bytes.{Bytes, bytes, eqb}
use peakshield.Http.Header.{
  Header, canonical, find, values_or_nil, first_or_empty, find-assign, get-set_same, find-set_other,
}
use peakshield.Http.Header
use peakshield.Proxy.Address.{extract_ip}
use peakshield.Proxy.Header.{copy_request_headers, sanitize_hop_by_hop_headers}
use peakshield.Proxy.Header.Laws.{values_at, names_key}
use peakshield.Proxy.Request.{Request, add_forwarded_for, set_default, forward_headers}

-- A value, or another where it is empty.
abbrev pub or_default : Bytes → Bytes → Bytes
or_default value other = if eqb value [] then other else value

-- The client's headers, copied and sanitized.
abbrev pub clean : Request → Header
clean r = sanitize_hop_by_hop_headers (copy_request_headers [] r.header)

get-set_default_same :
    (name v : Bytes) (h : Header)
    → Header.get name (set_default name v h) ≡ or_default (Header.get name h) v
unfolding set_default
get-set_default_same name v h = elim (Bool-cases (eqb (Header.get name h) [])) [
  | inl empty ↦ rw empty (get-set_same name v h)
  | inr given ↦ rw given refl
]

find-set_default_other :
    (name k v : Bytes) (h : Header)
    → eqb (canonical name) k ≡ false
    → find k (set_default name v h) ≡ find k h
unfolding set_default Header.set
find-set_default_other name k v h ne = ground (arith, find-assign (canonical name) k (v ∷ []) h)

-- The five fields that the proxy sets.
abbrev pub own_fields : List Bytes
own_fields =
    bytes "X-Forwarded-For"
    ∷ bytes "X-Real-IP"
    ∷ bytes "X-Forwarded-Host"
    ∷ bytes "X-Forwarded-Proto"
    ∷ bytes "Via"
    ∷ []

pub find-forward_headers :
    (r : Request) (k : Bytes) (h : Header)
    → names_key k own_fields ≡ false
    → find k (forward_headers r h) ≡ find k h
unfolding forward_headers add_forwarded_for
find-forward_headers r k h other =
    find-set_other (bytes "Via") k _ _ (ground arith)
    ∙ find-set_default_other (bytes "X-Forwarded-Proto") k _ _ (ground arith)
    ∙ find-set_default_other (bytes "X-Forwarded-Host") k _ _ (ground arith)
    ∙ find-set_default_other (bytes "X-Real-IP") k _ _ (ground arith)
    ∙ find-set_other (bytes "X-Forwarded-For") k _ _ (ground arith)

get_of_find :
    (name : Bytes) (g h : Header)
    → find (canonical name) g ≡ find (canonical name) h
    → Header.get name g ≡ Header.get name h
unfolding Header.get
get_of_find name g h e = ap (λ x. first_or_empty (values_or_nil x)) e

module _ (r : Request) (h : Header) where
  abbrev after_for : Header
  after_for = add_forwarded_for (extract_ip r.remote_addr) h

  abbrev after_ip : Header
  after_ip = set_default (bytes "X-Real-IP") (extract_ip r.remote_addr) after_for

  abbrev after_host : Header
  after_host = set_default (bytes "X-Forwarded-Host") r.host after_ip

  abbrev proto : Bytes
  proto = if r.tls then bytes "https" else bytes "http"

  abbrev after_proto : Header
  after_proto = set_default (bytes "X-Forwarded-Proto") proto after_host

  pub get_via : Header.get (bytes "Via") (forward_headers r h) ≡ bytes "1.1 peakshield"
  unfolding forward_headers
  get_via = get-set_same (bytes "Via") (bytes "1.1 peakshield") after_proto

  pub get-proto :
      Header.get (bytes "X-Forwarded-Proto") (forward_headers r h)
      ≡ or_default (Header.get (bytes "X-Forwarded-Proto") h) proto
  unfolding forward_headers canonical add_forwarded_for
  get-proto =
      get_of_find (bytes "X-Forwarded-Proto") (forward_headers r h) after_proto
        (find-set_other (bytes "Via") _ _ after_proto refl)
      ∙ get-set_default_same (bytes "X-Forwarded-Proto") proto after_host
      ∙ ap (λ x. or_default x proto)
          (get_of_find (bytes "X-Forwarded-Proto") after_host h (
            find-set_default_other (bytes "X-Forwarded-Host") _ _ after_ip refl
            ∙ find-set_default_other (bytes "X-Real-IP") _ _ after_for refl
            ∙ find-set_other (bytes "X-Forwarded-For") _ _ h refl))

  pub get_host :
      Header.get (bytes "X-Forwarded-Host") (forward_headers r h)
      ≡ or_default (Header.get (bytes "X-Forwarded-Host") h) r.host
  unfolding forward_headers canonical add_forwarded_for
  get_host =
      get_of_find (bytes "X-Forwarded-Host") (forward_headers r h) after_host (
        find-set_other (bytes "Via") _ _ after_proto refl
        ∙ find-set_default_other (bytes "X-Forwarded-Proto") _ _ after_host refl)
      ∙ get-set_default_same (bytes "X-Forwarded-Host") r.host after_ip
      ∙ ap (λ x. or_default x r.host)
          (get_of_find (bytes "X-Forwarded-Host") after_ip h (
            find-set_default_other (bytes "X-Real-IP") _ _ after_for refl
            ∙ find-set_other (bytes "X-Forwarded-For") _ _ h refl))

  pub get_ip :
      Header.get (bytes "X-Real-IP") (forward_headers r h)
      ≡ or_default (Header.get (bytes "X-Real-IP") h) (extract_ip r.remote_addr)
  unfolding forward_headers canonical add_forwarded_for
  get_ip =
      get_of_find (bytes "X-Real-IP") (forward_headers r h) after_ip (
        find-set_other (bytes "Via") _ _ after_proto refl
        ∙ find-set_default_other (bytes "X-Forwarded-Proto") _ _ after_host refl
        ∙ find-set_default_other (bytes "X-Forwarded-Host") _ _ after_ip refl)
      ∙ get-set_default_same (bytes "X-Real-IP") (extract_ip r.remote_addr) after_for
      ∙ ap (λ x. or_default x (extract_ip r.remote_addr))
          (get_of_find (bytes "X-Real-IP") after_for h
            (find-set_other (bytes "X-Forwarded-For") _ _ h refl))

  -- The whole chain stands in one value.
  abbrev pub forwarded_chain : Bytes
  forwarded_chain =
      let prior = Header.get (bytes "X-Forwarded-For") h in
      if eqb prior []
      then extract_ip r.remote_addr
      else prior ++ (bytes ", " ++ extract_ip r.remote_addr)

  pub get_for :
      values_at (canonical (bytes "X-Forwarded-For")) (forward_headers r h) ≡ forwarded_chain ∷ []
  unfolding forward_headers canonical add_forwarded_for Header.set
  get_for = ap values_or_nil (
      find-set_other (bytes "Via") _ _ after_proto refl
      ∙ find-set_default_other (bytes "X-Forwarded-Proto") _ _ after_host refl
      ∙ find-set_default_other (bytes "X-Forwarded-Host") _ _ after_ip refl
      ∙ find-set_default_other (bytes "X-Real-IP") _ _ after_for refl
      ∙ find-assign (canonical (bytes "X-Forwarded-For")) (canonical (bytes "X-Forwarded-For"))
          (forwarded_chain ∷ []) h)
