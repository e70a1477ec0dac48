-- ===== src/Proxy/Request.antt =====
-- proxy/proxy.go: buildBackendRequest. Contexts are not part of a request here: what a client that
-- goes away means for the exchange is an argument of ServeHTTP.
pub mod Fields
pub mod Laws
use peakshield.Prelude.{Bool, Option, none, some, [], ◌++◌, if◌then◌else◌}
use peakshield.Prelude.Bytes.{Bytes, bytes, eqb}
use peakshield.Http.Header.{Header, all_field_bytes}
use peakshield.Http.Header
use peakshield.Proxy.Path.{join_path}
use peakshield.Proxy.Address.{extract_ip}
use peakshield.Proxy.Header.{copy_request_headers, sanitize_hop_by_hop_headers}

-- url.URL, as far as the proxy fills it in
pub record Url : Type 0 where
  pub scheme : Bytes
  pub host : Bytes
  pub path : Bytes
  pub raw_query : Bytes

-- http.Request, as the server hands it to a handler
pub record Request : Type 0 where
  pub method : Bytes
  pub path : Bytes  -- URL.Path
  pub raw_query : Bytes  -- URL.RawQuery
  pub header : Header
  pub host : Bytes
  pub remote_addr : Bytes
  pub tls : Bool  -- TLS != nil
  pub body : Bytes

-- http.Request, as the client sends it to the backend
pub record OutRequest : Type 0 where
  pub method : Bytes
  pub url : Url
  pub header : Header
  pub host : Bytes
  pub body : Bytes

unfoldable pub backend_url : Url → Request → Url
backend_url target r = record {
  scheme = target.scheme;
  host = target.host;
  path = join_path target.path r.path;
  raw_query = r.raw_query;
}

-- X-Forwarded-For, with the client's address at the end of the chain
unfoldable pub add_forwarded_for : Bytes → Header → Header
add_forwarded_for client_ip h =
    let prior = Header.get (bytes "X-Forwarded-For") h in
    Header.set (bytes "X-Forwarded-For")
      (if eqb prior [] then client_ip else prior ++ (bytes ", " ++ client_ip)) h

-- `if outReq.Header.Get(name) == "" { outReq.Header.Set(name, value) }`
unfoldable pub set_default : Bytes → Bytes → Header → Header
set_default name value h = if eqb (Header.get name h) [] then Header.set name value h else h

-- everything that is set on the sanitized copy of the client's headers
unfoldable pub forward_headers : Request → Header → Header
unfolding add_forwarded_for set_default
forward_headers r h =
    let client_ip = extract_ip r.remote_addr in
    Header.set (bytes "Via") (bytes "1.1 peakshield") (
      set_default (bytes "X-Forwarded-Proto") (if r.tls then bytes "https" else bytes "http") (
        set_default (bytes "X-Forwarded-Host") r.host
          (set_default (bytes "X-Real-IP") client_ip (add_forwarded_for client_ip h))))

-- `reparse` stands for url.Parse of the URL's text, with `none` for an error.
module _ (reparse : Url → Option Url) where
  -- http.NewRequestWithContext, with an empty header map; `none` for an error
  unfoldable pub new_request : Bytes → Url → Bytes → Option OutRequest
  new_request method url body =
      if all_field_bytes method
      then elim (reparse url) [
        | none ↦ none
        | some u ↦ some (record {
          method = if eqb method [] then bytes "GET" else method;
          url = u;
          header = [];
          host = u.host;
          body = body;
        })
      ]
      else none

  unfoldable pub build_backend_request : Url → Request → Option OutRequest
  unfolding forward_headers
  build_backend_request target r = elim (new_request r.method (backend_url target r) r.body) [
    | none ↦ none
    | some out ↦ some (record out {
      header =
          forward_headers r
            (sanitize_hop_by_hop_headers (copy_request_headers out.header r.header));
      host = target.host;
    })
  ]
