-- ===== src/Proxy/Tests.antt =====
-- proxy/proxy.go: runs on small requests, and the properties there.
use peakshield.Prelude.{
  inl, arith, ℕ, if◌then◌else◌, ◌≡◌, refl, false, [], ◌∷◌, ◌++◌, some, true, take,
}
use peakshield.Prelude.Bytes.{Bytes, bytes}
use peakshield.Prelude.Search.{last_index_byte}
use peakshield.Http.Header
use peakshield.Http.Header.{canonical, all_field_bytes}
use peakshield.Http.Writer.{Sent, fresh_writer, apply_all, joined}
use peakshield.Proxy.Failure.{failure_body, status_text}
use peakshield.Proxy.Escape.{escaped}
use peakshield.Proxy.Failure.Json.{unmarshal, unmarshal-failure_body}
use peakshield.Proxy.Path.{
  join_path, slashes, ends_with_slash, starts_with_slash, join_path_boundary,
}
use peakshield.Proxy.Address.{extract_ip, split_host_port, split_plain}
use peakshield.Proxy.Header.Laws.{values_at, all_values, forwarded_entries}
use peakshield.Proxy.Request.{
  Url, Request, OutRequest, backend_url, forward_headers, new_request, build_backend_request,
}
use peakshield.Proxy.Request.Laws.{dropped, forwarded_fields, other_fields}
use peakshield.Proxy.Request.Fields.{clean, forwarded_chain, or_default}
use peakshield.Proxy.Serve.{Response, Exchange, answered, failed}
use peakshield.Proxy.Serve.Laws.{
  served, outcome, serve_http_outcome, serve_http_answer, serve_http-IsFailure,
}
use peakshield.Proxy.Serve.Outcome.{status_sent, expected_status, released_body, IsFailure}

-- http://backend:9000/api/
abbrev backend : Url
backend = record {
  scheme = bytes "http";
  host = bytes "backend:9000";
  path = bytes "/api/";
  raw_query = [];
}

abbrev request : Request
request = record {
  method = bytes "GET";
  path = bytes "/a";
  raw_query = [];
  header = (bytes "Accept", bytes "a" ∷ bytes "b" ∷ []) ∷ [];
  host = bytes "shop";
  remote_addr = bytes "10.0.0.7:5123";
  tls = true;
  body = [];
}

-- What is built for the backend, with the URL's text parsed to the same URL.
abbrev built : OutRequest
built = record {
  method = bytes "GET";
  url = backend_url backend request;
  header = forward_headers request (clean request);
  host = bytes "backend:9000";
  body = [];
}

abbrev answer : Response
answer = record { status = 404; header = []; chunks = bytes "no" ∷ bytes "ne" ∷ [] }

slashes_meet : join_path (bytes "/api/") (bytes "/a") ≡ bytes "/api/a"
unfolding join_path
slashes_meet = refl

port_cut_off : extract_ip (bytes "10.0.0.7:5123") ≡ bytes "10.0.0.7"
unfolding extract_ip split_host_port last_index_byte split_plain
port_cut_off = refl

is_built : build_backend_request some backend request ≡ some built
unfolding build_backend_request new_request all_field_bytes
is_built = refl

join_path_boundary_example :
    (b : Bytes) × (r : Bytes) × (k : ℕ) × (m : ℕ) × (join_path (bytes "/api/") (bytes "//a")
      ≡ b ++ b'/' ∷ r)
    × (bytes "/api/" ≡ b ++ slashes k)
    × (bytes "//a" ≡ slashes m ++ r)
    × (ends_with_slash b ≡ false)
    × (starts_with_slash r ≡ false)
join_path_boundary_example = join_path_boundary (bytes "/api/") (bytes "//a") refl refl

forwarded_fields_example :
    (values_at (canonical (bytes "X-Forwarded-For")) built.header
      ≡ forwarded_chain request (clean request) ∷ [])
    × (Header.get (bytes "X-Real-IP") built.header
        ≡ or_default
            (Header.get (bytes "X-Real-IP") (clean request))
            (extract_ip (bytes "10.0.0.7:5123")))
    × (Header.get (bytes "X-Forwarded-Host") built.header
        ≡ or_default (Header.get (bytes "X-Forwarded-Host") (clean request)) (bytes "shop"))
    × (Header.get (bytes "X-Forwarded-Proto") built.header
        ≡ or_default (Header.get (bytes "X-Forwarded-Proto") (clean request)) (bytes "https"))
    × (Header.get (bytes "Via") built.header ≡ bytes "1.1 peakshield")
    × (built.host ≡ backend.host)
    × (built.body ≡ [])
forwarded_fields_example = forwarded_fields some backend request is_built

other_fields_example :
    values_at (bytes "Accept") built.header
    ≡ (if dropped (bytes "Accept") request then [] else all_values (bytes "Accept") request.header)
unfolding canonical
other_fields_example = other_fields some backend request (bytes "Accept") is_built refl

abbrev target : Bytes
target = bytes "http://backend"

-- The backend does not answer in time.
abbrev late : OutRequest → Exchange
late out = failed true

serve_http_outcome_example :
    (status_sent (apply_all (served some target backend late false 9 request).ops fresh_writer)
      ≡ expected_status false (outcome some target backend late false 9 request))
    × ((served some target backend late false 9 request).body
        ≡ released_body (outcome some target backend late false 9 request))
serve_http_outcome_example =
    serve_http_outcome some target backend late false 9 request fresh_writer refl

serve_http-IsFailure_example :
    IsFailure target 504
      (bytes "backend_timeout")
      fresh_writer
      (apply_all (served some target backend late false 9 request).ops fresh_writer)
unfolding build_backend_request new_request all_field_bytes
serve_http-IsFailure_example =
    serve_http-IsFailure some target backend late false 9 request fresh_writer 504
      (bytes "backend_timeout") refl refl refl

abbrev prompt : OutRequest → Exchange
prompt out = answered answer

-- The client takes one of the two chunks.
serve_http_answer_example :
    (s : Sent) × ((apply_all
        (served some target backend prompt false 1 request).ops
        fresh_writer).sent
      ≡ some s)
    × (s.status ≡ 404)
    × (values_at (bytes "Server") s.headers
        ≡ values_at (bytes "Server") fresh_writer.header
          ++ all_values (bytes "Server") (forwarded_entries answer.header))
    × (Header.get (bytes "X-PeakShield-Proxied") s.headers ≡ bytes "1")
    × (Header.get (bytes "Via") s.headers ≡ bytes "1.1 peakshield")
    × ((apply_all (served some target backend prompt false 1 request).ops fresh_writer).body
        ≡ fresh_writer.body ++ joined (take 1 answer.chunks))
unfolding build_backend_request new_request all_field_bytes canonical
serve_http_answer_example =
    serve_http_answer some target backend prompt false 1 request fresh_writer answer
      (bytes "Server") refl (omega arith) refl refl

-- A byte that is not UTF-8, a character of two bytes, a line separator, and a start without its end.
escaped_runes :
    escaped (b'a' ∷ 255 ∷ 195 ∷ 169 ∷ 226 ∷ 128 ∷ 168 ∷ 226 ∷ 128 ∷ [])
    ≡ bytes "a\\ufffdé\\u2028\\ufffd\\ufffd"
escaped_runes = refl

-- A URL with characters that JSON escapes.
unmarshal-failure_body_example :
    unmarshal (failure_body (bytes "http://a\"b\\c<d>\n") 502 (bytes "backend_error"))
    ≡ some (record {
      error = bytes "backend_error";
      code = 502;
      message = status_text 502;
      backend = bytes "http://a\"b\\c<d>\n";
    })
unmarshal-failure_body_example =
    unmarshal-failure_body (bytes "http://a\"b\\c<d>\n") (bytes "backend_error") 502 (inl refl)
      (omega arith) (omega arith)
