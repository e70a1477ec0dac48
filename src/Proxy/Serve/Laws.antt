-- ===== src/Proxy/Serve/Laws.antt =====
-- proxy/proxy.go: what the client of ServeHTTP gets to see.
use mathlib.Core.Option
use peakshield.Prelude.{
  ℕ, ◌≤◌, ◌≡◌, arith, refl, ap, ◌∙◌, Bool, false, ◌++◌, Option, none, some, take, inl, inr,
  Option-cases,
}
use peakshield.Prelude.Bytes.{Bytes, bytes}
use peakshield.Http.Header.{
  Header, canonical, get-set_same, get-set_other, find-set_other, values_or_nil,
}
use peakshield.Http.Header
use peakshield.Http.Writer.{
  ResponseWriter, Sent, apply_all, apply_all-response, joined, response, edited,
}
use peakshield.Proxy.Header.Laws.{values_at, all_values, forwarded_entries, names_key}
use peakshield.Proxy.Request.{Url, Request, OutRequest, build_backend_request}
use peakshield.Proxy.Serve.{
  Response, Exchange, answered, Served, answer_fields, serve_exchange, serve_http,
}
use peakshield.Proxy.Serve.Outcome.{
  ops-serve_answer, status_sent, expected_status, serve_outcome, serve_outcome-status,
  released_body, serve_outcome-body, IsFailure, failure_of, serve_outcome-IsFailure, answer_names,
  values-answer_fields,
}

module _ (reparse : Url → Option Url) (target_url : Bytes) (target : Url)
    (do_request : OutRequest → Exchange) (client_gone : Bool) (accepted : ℕ) (r : Request) where
  abbrev pub served : Served
  served = serve_http reparse target_url target do_request client_gone accepted r

  abbrev pub outcome : Option Exchange
  outcome = Option.map do_request (build_backend_request reparse target r)

  served-outcome : served ≡ serve_outcome target_url client_gone accepted outcome
  unfolding serve_http
  served-outcome = elim (Option-cases (build_backend_request reparse target r)) [
    | inl bad ↦ rw (bad, serve_http)
    | inr (out, good) ↦ rw (good, serve_http)
  ]

  -- On a writer that has sent nothing, whatever becomes of the request, the client gets the status
  -- that fits the outcome, and gets none only if it has gone away before an answer came, or if the
  -- backend's status is below 100; and a response's body is read to its end and closed, however much
  -- of it the client takes.
  pub serve_http_outcome :
      (w : ResponseWriter)
      → w.sent ≡ none
      → (status_sent (apply_all served.ops w) ≡ expected_status client_gone outcome)
        × (served.body ≡ released_body outcome)
  serve_http_outcome w fresh = rw served-outcome (
    serve_outcome-status target_url client_gone accepted outcome w fresh,
    serve_outcome-body target_url client_gone accepted outcome,
  )

  -- An answer of the backend becomes one response.
  pub ops_answered :
      (resp : Response)
      → 100 ≤ resp.status
      → outcome ≡ some (answered resp)
      → served.ops ≡ response (answer_fields resp) resp.status (take accepted resp.chunks)
  unfolding serve_exchange
  ops_answered resp fine answer =
      ap (λ x. x.ops) (served-outcome ∙ ap (serve_outcome target_url client_gone accepted) answer)
      ∙ ops-serve_answer accepted resp (ground arith)

  -- On a writer that has sent nothing, an answer of the backend with a status of at least 100, below
  -- which net/http panics, reaches the client with its status,
  -- with the chunks of its body that the client takes, with the two fields of the proxy, and with
  -- the values of every other field, added to those that were set before, unless the field is an
  -- excluded one.
  pub serve_http_answer :
      (w : ResponseWriter) (resp : Response) (k : Bytes)
      → w.sent ≡ none
      → 100 ≤ resp.status
      → outcome ≡ some (answered resp)
      → names_key k answer_names ≡ false
      → (s : Sent) × ((apply_all served.ops w).sent ≡ some s)
        × (s.status ≡ resp.status)
        × (values_at k s.headers
            ≡ values_at k w.header ++ all_values k (forwarded_entries resp.header))
        × (Header.get (bytes "X-PeakShield-Proxied") s.headers ≡ bytes "1")
        × (Header.get (bytes "Via") s.headers ≡ bytes "1.1 peakshield")
        × ((apply_all served.ops w).body ≡ w.body ++ joined (take accepted resp.chunks))
  unfolding canonical
  serve_http_answer w resp k fresh fine answer other =
      let h = edited (answer_fields resp) w.header in
      let whole : apply_all served.ops w ≡ record {
        header = h;
        sent = some (record { status = resp.status; headers = h });
        body = w.body ++ joined (take accepted resp.chunks);
      } =
        ap (λ x. apply_all x w) (ops_answered resp fine answer)
        ∙ apply_all-response (answer_fields resp) resp.status (take accepted resp.chunks) w fresh in
      (
        record { status = resp.status; headers = h },
        ap (λ x. x.sent) whole,
        refl,
        values-answer_fields k resp w.header other,
        get-set_other (bytes "Via") (bytes "X-PeakShield-Proxied") _ _ refl
            ∙ get-set_same (bytes "X-PeakShield-Proxied") (bytes "1") _,
        get-set_same (bytes "Via") (bytes "1.1 peakshield") _,
        ap (λ x. x.body) whole,
      )

  -- On a writer that has sent nothing, a request that cannot be built for the backend, or that the
  -- backend does not answer, is answered with JSON that repeats the status, and with the kind of
  -- the failure in a header, unless the client has gone away.
  pub serve_http-IsFailure :
      (w : ResponseWriter) (status : ℕ) (kind : Bytes)
      → w.sent ≡ none
      → client_gone ≡ false
      → failure_of outcome ≡ some (status, kind)
      → IsFailure target_url status kind w (apply_all served.ops w)
  serve_http-IsFailure w status kind fresh here failure = rw served-outcome (
      serve_outcome-IsFailure target_url client_gone accepted outcome w status kind fresh here
        failure)
