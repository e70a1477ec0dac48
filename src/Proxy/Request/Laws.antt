-- ===== src/Proxy/Request/Laws.antt =====
-- proxy/proxy.go: what the backend receives.
use peakshield.Prelude.{
  ◌≡◌, refl, ap, ◌∙◌, Bool, true, false, ◌||◌, List, [], ◌∷◌, Option, none, some, if◌then◌else◌,
  arith, Option-cases, inl, inr,
}
use peakshield.Prelude.Bytes.{Bytes, bytes}
use peakshield.Prelude.Search.{split}
use peakshield.Http.Header.{
  Header, canonical, find, values_or_nil, first_or_empty, find-assign, get-set_same, find-set_other,
}
use peakshield.Http.Header
use peakshield.Proxy.Address.{extract_ip}
use peakshield.Proxy.Header.{copy_request_headers, hop_by_hop_headers}
use peakshield.Proxy.Header.Laws.{
  values_at, all_values, values-copy_request_headers, names_key, nominates, find-sanitize,
}
use peakshield.Proxy.Request.{
  Url, Request, OutRequest, backend_url, forward_headers, new_request, build_backend_request,
}
use peakshield.Proxy.Request.Fields.{
  or_default, clean, own_fields, find-forward_headers, get_via, get-proto, get_host, get_ip,
  forwarded_chain, get_for,
}

build_inversion :
    (reparse : Url → Option Url) (target : Url) (r : Request) {out : OutRequest}
    → build_backend_request reparse target r ≡ some out
    → (out.header ≡ forward_headers r (clean r)) × (out.host ≡ target.host) × (out.body ≡ r.body)
unfolding build_backend_request new_request
build_inversion reparse target r h = elim (Option-cases (reparse (backend_url target r))) [
  | inl bad ↦ absurd (ground (arith, bad))
  | inr (u, good) ↦ ground (arith, good)
]

-- A request that is built for the backend carries one X-Forwarded-For value, with the client's
-- address appended to the first one that was left by sanitizing; X-Real-IP, X-Forwarded-Host and
-- X-Forwarded-Proto as sanitizing left them, or else the client's address, the client's Host and
-- the scheme; the proxy's own Via; the backend's host; and the client's body.
pub forwarded_fields :
    (reparse : Url → Option Url) (target : Url) (r : Request) {out : OutRequest}
    → build_backend_request reparse target r ≡ some out
    → (values_at (canonical (bytes "X-Forwarded-For")) out.header
        ≡ forwarded_chain r (clean r) ∷ [])
      × (Header.get (bytes "X-Real-IP") out.header
          ≡ or_default (Header.get (bytes "X-Real-IP") (clean r)) (extract_ip r.remote_addr))
      × (Header.get (bytes "X-Forwarded-Host") out.header
          ≡ or_default (Header.get (bytes "X-Forwarded-Host") (clean r)) r.host)
      × (Header.get (bytes "X-Forwarded-Proto") out.header
          ≡ or_default
              (Header.get (bytes "X-Forwarded-Proto") (clean r))
              (if r.tls then bytes "https" else bytes "http"))
      × (Header.get (bytes "Via") out.header ≡ bytes "1.1 peakshield")
      × (out.host ≡ target.host)
      × (out.body ≡ r.body)
forwarded_fields reparse target r h =
    let (header, host, body) = build_inversion reparse target r h in
    (
      rw header (get_for r (clean r)),
      rw header (get_ip r (clean r)),
      rw header (get_host r (clean r)),
      rw header (get-proto r (clean r)),
      rw header (get_via r (clean r)),
      host,
      body,
    )

-- The proxy drops the key `k`: it is on the proxy's list of hop-by-hop fields, which has Trailers
-- where the field is named Trailer, or the client's first Connection line names it.
abbrev pub dropped : Bytes → Request → Bool
dropped k r =
    names_key k hop_by_hop_headers
    || nominates k
        (split b',' (first_or_empty (all_values (canonical (bytes "Connection")) r.header)))

values_of_kept :
    (gone : Bool) (o : Option (List Bytes))
    → values_or_nil (if gone then none else o) ≡ (if gone then [] else values_or_nil o)
values_of_kept true o = refl
values_of_kept false o = refl

get_connection :
    (r : Request)
    → Header.get (bytes "Connection") (copy_request_headers [] r.header)
      ≡ first_or_empty (all_values (canonical (bytes "Connection")) r.header)
unfolding Header.get find
get_connection r =
    ap first_or_empty (values-copy_request_headers (canonical (bytes "Connection")) [] r.header)

values-clean :
    (k : Bytes) (r : Request)
    → values_at k (clean r) ≡ (if dropped k r then [] else all_values k r.header)
unfolding find
values-clean k r =
    let copied = copy_request_headers [] r.header in
    ap values_or_nil (find-sanitize k copied)
    ∙ values_of_kept _ (find k copied)
    ∙ ap
        (λ c.
          if names_key k hop_by_hop_headers || nominates k (split b',' c)
          then []
          else values_at k copied)
        (get_connection r)
    ∙ ap (λ v. if dropped k r then [] else v) (values-copy_request_headers k [] r.header)

-- The header that is built for the backend's request has every field but the five that the proxy
-- sets with all the values that the client sent for it, in their order, unless the proxy drops the
-- field: then it has none of them. Dropped is what stands on the proxy's own list, which has
-- Trailers where the field is named Trailer, or what the first Connection line names, and no more: a
-- field that only a further Connection line names is kept.
pub other_fields :
    (reparse : Url → Option Url) (target : Url) (r : Request) (k : Bytes) {out : OutRequest}
    → build_backend_request reparse target r ≡ some out
    → names_key k own_fields ≡ false
    → values_at k out.header ≡ (if dropped k r then [] else all_values k r.header)
other_fields reparse target r k h other =
    let (header, _, _) = build_inversion reparse target r h in
    rw header (ap values_or_nil (find-forward_headers r k (clean r) other) ∙ values-clean k r)
