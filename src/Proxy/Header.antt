-- ===== src/Proxy/Header.antt =====
-- proxy/proxy.go: copyRequestHeaders, copyResponseHeaders and sanitizeHopByHopHeaders. A `range` over
-- a map visits its entries in the order of the association list. Header values are ASCII, as far as
-- strings.TrimSpace looks at them.
pub mod Laws
use peakshield.Prelude.{Bool, false, ◌||◌, List, [], ◌∷◌, if◌then◌else◌}
use peakshield.Prelude.Bytes.{Bytes, bytes, eqb}
use peakshield.Prelude.Search.{split, trim_space}
use peakshield.Http.Header.{Header}
use peakshield.Http.Header

-- hopByHopHeaders
abbrev pub hop_by_hop_headers : List Bytes
hop_by_hop_headers =
    bytes "Connection"
    ∷ bytes "Keep-Alive"
    ∷ bytes "Proxy-Authenticate"
    ∷ bytes "Proxy-Authorization"
    ∷ bytes "TE"
    ∷ bytes "Trailers"
    ∷ bytes "Transfer-Encoding"
    ∷ bytes "Upgrade"
    ∷ []

-- excludedResponseHeaders
abbrev pub excluded_response_headers : List Bytes
excluded_response_headers =
    bytes "Connection"
    ∷ bytes "Keep-Alive"
    ∷ bytes "Transfer-Encoding"
    ∷ bytes "Trailer"
    ∷ bytes "Upgrade"
    ∷ []

abbrev pub one_of : Bytes → List Bytes → Bool
one_of k [] = false
one_of k (x ∷ xs) = eqb x k || one_of k xs

-- the inner loop of both functions: `dst.Add(key, v)` for every value
unfoldable pub add_values : Bytes → List Bytes → Header → Header
add_values key [] dst = dst
add_values key (v ∷ vs) dst = add_values key vs (Header.add key v dst)

unfoldable pub copy_request_headers : Header → Header → Header
copy_request_headers dst [] = dst
copy_request_headers dst ((key, vs) ∷ src) = copy_request_headers (add_values key vs dst) src

unfoldable pub copy_response_headers : Header → Header → Header
copy_response_headers dst [] = dst
copy_response_headers dst ((key, vs) ∷ src) =
    copy_response_headers
      (if one_of key excluded_response_headers then dst else add_values key vs dst) src

-- the fields that a Connection header names
unfoldable pub delete_nominated : List Bytes → Header → Header
delete_nominated [] h = h
delete_nominated (token ∷ tokens) h =
    delete_nominated tokens
      (let field = trim_space token in if eqb field [] then h else Header.del field h)

-- the standard list
unfoldable pub delete_all : List Bytes → Header → Header
delete_all [] h = h
delete_all (name ∷ names) h = delete_all names (Header.del name h)

unfoldable pub sanitize_hop_by_hop_headers : Header → Header
unfolding delete_nominated delete_all
sanitize_hop_by_hop_headers h =
    let conn_header = Header.get (bytes "Connection") h in
    delete_all hop_by_hop_headers
      (if eqb conn_header [] then h else delete_nominated (split b',' conn_header) h)
