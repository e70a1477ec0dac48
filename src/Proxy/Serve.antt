-- ===== src/Proxy/Serve.antt =====
-- proxy/proxy.go: ServeHTTP. What it does to its response writer is a list of operations; the body of
-- the backend's response is a resource that has to be read to its end and closed.
pub mod Outcome
pub mod Laws
use peakshield.Prelude.{
  ℕ, zero, suc, Bool, true, false, List, [], ◌∷◌, ◌++◌, Option, none, some, ltb, if◌then◌else◌,
}
use peakshield.Prelude.Bytes.{Bytes, bytes}
use peakshield.Http.Header.{Header}
use peakshield.Http.Header
use peakshield.Http.Writer.{Op, put_body, put_status, edits}
use peakshield.Proxy.Header.{copy_response_headers}
use peakshield.Proxy.Request.{Url, Request, OutRequest, build_backend_request}
use peakshield.Proxy.Failure.{write_error}

-- http.Response, with the body in the chunks that Read returns
pub record Response : Type 0 where
  pub status : ℕ
  pub header : Header
  pub chunks : List Bytes

-- What client.Do returns: a response, or an error with whether it is a timeout of url.Error.
pub data Exchange : Type 0 where
  answered : (response : Response) → Exchange
  failed : (is_timeout : Bool) → Exchange

-- resp.Body
pub record Body : Type 0 where
  pub unread : List Bytes
  pub closed : Bool

-- io.Copy(w, resp.Body), where the client takes the first `accepted` chunks: a chunk that cannot be
-- written has been read, and ends the copy. What is written, and what is left unread.
unfoldable pub copy_chunks : ℕ → List Bytes → List Op × List Bytes
copy_chunks accepted [] = ([], [])
copy_chunks zero (c ∷ cs) = ([], cs)
copy_chunks (suc accepted) (c ∷ cs) =
    let (ops, rest) = copy_chunks accepted cs in (put_body c ∷ ops, rest)

-- the deferred function: io.Copy(io.Discard, resp.Body), and then Close
unfoldable pub release : Body → Body
release body = record { unread = []; closed = true }

-- The operations on the writer, and what has become of the response's body if there is one.
pub record Served : Type 0 where
  pub ops : List Op
  pub body : Option Body

-- the header lines of an answer
abbrev pub answer_fields : Response → List (Header → Header)
answer_fields r =
    (λ h. copy_response_headers h r.header)
    ∷ Header.set (bytes "X-PeakShield-Proxied") (bytes "1")
    ∷ Header.set (bytes "Via") (bytes "1.1 peakshield")
    ∷ []

-- net/http's WriteHeader panics for a status below 100, which client.Do can return: then nothing is
-- sent, the handlers around are ended without sending anything, and the body is released all the
-- same, since that is deferred. 1xx but 101 are not statuses that client.Do returns.
unfoldable pub serve_answer : ℕ → Response → Served
unfolding copy_chunks release
serve_answer accepted r =
    let (ops, rest) = copy_chunks accepted r.chunks in
    if ltb r.status 100
    then record {
      ops = edits (answer_fields r);
      body = some (release (record { unread = r.chunks; closed = false }));
    }
    else record {
      ops = edits (answer_fields r) ++ put_status r.status ∷ ops;
      body = some (release (record { unread = rest; closed = false }));
    }

-- the three cases of an error of client.Do; `client_gone` is r.Context().Err() != nil
unfoldable pub serve_failure : Bytes → Bool → Bool → Served
unfolding write_error
serve_failure target_url client_gone is_timeout = record {
  ops =
      if client_gone
      then []
      else if is_timeout
      then write_error target_url 504 (bytes "backend_timeout")
      else write_error target_url 502 (bytes "backend_error");
  body = none;
}

unfoldable pub serve_exchange : Bytes → Bool → ℕ → Exchange → Served
unfolding serve_answer serve_failure
serve_exchange target_url client_gone accepted (answered r) = serve_answer accepted r
serve_exchange target_url client_gone accepted (failed is_timeout) =
    serve_failure target_url client_gone is_timeout

-- `do_request` stands for client.Do; the client takes the first `accepted` chunks of the body.
unfoldable pub serve_http :
    (Url → Option Url) → Bytes → Url → (OutRequest → Exchange) → Bool → ℕ → Request → Served
unfolding build_backend_request serve_exchange write_error
serve_http reparse target_url target do_request client_gone accepted r =
    elim (build_backend_request reparse target r) [
      | none ↦ record {
        ops = write_error target_url 502 (bytes "request_build_failed");
        body = none;
      }
      | some out ↦ serve_exchange target_url client_gone accepted (do_request out)
    ]
