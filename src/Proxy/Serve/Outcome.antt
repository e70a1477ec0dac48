-- ===== src/Proxy/Serve/Outcome.antt =====
-- proxy/proxy.go: the cases of ServeHTTP, by what comes of the exchange with the backend.
use mathlib.Core.Option
use peakshield.Prelude.{
  ℕ, zero, suc, ◌≡◌, refl, ap, ◌∙◌, Bool, true, false, List, [], ◌∷◌, ◌++◌, Option, none, some,
  take, if◌then◌else◌, arith, append-nil, ltb, Bool-cases, inl, inr,
}
use peakshield.Prelude.Bytes.{Bytes, bytes}
use peakshield.Http.Header.{
  Header, canonical, get-set_same, get-set_other, find-set_other, values_or_nil,
}
use peakshield.Http.Header
use peakshield.Http.Writer.{
  ResponseWriter, Sent, put_body, edits, apply_all, apply_all-response, writes, response, edited,
}
use peakshield.Proxy.Header.Laws.{
  values_at, all_values, forwarded_entries, names_key, values-copy_response_headers,
}
use peakshield.Proxy.Failure.{failure_fields, failure_body, write_error}
use peakshield.Proxy.Serve.{
  Response, Exchange, answered, failed, copy_chunks, Served, answer_fields, serve_answer, Body,
  serve_failure, serve_exchange,
}

copy_chunks-take : (n : ℕ) (cs : List Bytes) → (copy_chunks n cs).0 ≡ writes (take n cs)
unfolding copy_chunks
copy_chunks-take zero [] = refl
copy_chunks-take (suc n) [] = refl
copy_chunks-take zero (c ∷ cs) = refl
copy_chunks-take (suc n) (c ∷ cs) = ap (◌∷◌ (put_body c)) (copy_chunks-take n cs)

-- An answer whose status net/http takes is a response with the chunks that the client takes.
pub ops-serve_answer :
    (accepted : ℕ) (r : Response)
    → ltb r.status 100 ≡ false
    → (serve_answer accepted r).ops ≡ response (answer_fields r) r.status (take accepted r.chunks)
unfolding serve_answer
ops-serve_answer accepted r fine = rw (fine, copy_chunks-take accepted r.chunks)

-- One that net/http panics at sends nothing.
sent-edits :
    (fs : List (Header → Header)) (w : ResponseWriter) → (apply_all (edits fs) w).sent ≡ w.sent
unfolding apply_all
sent-edits [] w = refl
sent-edits (f ∷ fs) w = sent-edits fs (record w { header = f w.header })

-- The status that was sent.
abbrev pub status_sent : ResponseWriter → Option ℕ
status_sent w = Option.map (λ s. s.status) w.sent

status_sent-response :
    (fs : List (Header → Header)) (status : ℕ) (bs : List Bytes) (w : ResponseWriter)
    → w.sent ≡ none
    → status_sent (apply_all (response fs status bs) w) ≡ some status
status_sent-response fs status bs w fresh = ap status_sent (apply_all-response fs status bs w fresh)

answer-status :
    (accepted : ℕ) (r : Response) (w : ResponseWriter)
    → w.sent ≡ none
    → status_sent (apply_all (serve_answer accepted r).ops w)
      ≡ (if ltb r.status 100 then none else some r.status)
answer-status accepted r w fresh = elim (Bool-cases (ltb r.status 100)) [
  | inl low ↦
      unfold serve_answer in
      rw low (ap (Option.map (λ s. s.status)) (sent-edits (answer_fields r) w ∙ fresh))
  | inr fine ↦
      rw (fine, ops-serve_answer accepted r fine)
        (status_sent-response (answer_fields r) r.status (take accepted r.chunks) w fresh)
]

-- What the client is to see for each outcome: the backend's status, but nothing for one below 100,
-- 504 for a timeout, 502 for any other failure, and nothing if it has gone away before.
abbrev pub expected_status : Bool → Option Exchange → Option ℕ
expected_status client_gone none = some 502
expected_status client_gone (some (answered r)) = if ltb r.status 100 then none else some r.status
expected_status client_gone (some (failed is_timeout)) =
    if client_gone then none else if is_timeout then some 504 else some 502

abbrev pub serve_outcome : Bytes → Bool → ℕ → Option Exchange → Served
serve_outcome target_url client_gone accepted none = record {
  ops = write_error target_url 502 (bytes "request_build_failed");
  body = none;
}
serve_outcome target_url client_gone accepted (some e) =
    serve_exchange target_url client_gone accepted e

pub serve_outcome-status :
    (target_url : Bytes) (client_gone : Bool) (accepted : ℕ) (o : Option Exchange)
    (w : ResponseWriter)
    → w.sent ≡ none
    → status_sent (apply_all (serve_outcome target_url client_gone accepted o).ops w)
      ≡ expected_status client_gone o
unfolding serve_exchange serve_failure write_error
serve_outcome-status target_url gone accepted none w fresh =
    status_sent-response (failure_fields (bytes "request_build_failed")) 502
      (failure_body target_url 502 (bytes "request_build_failed") ∷ []) w fresh
serve_outcome-status target_url gone accepted (some (answered r)) w fresh =
    answer-status accepted r w fresh
serve_outcome-status target_url true accepted (some (failed late)) w fresh =
    unfold apply_all in rw fresh refl
serve_outcome-status target_url false accepted (some (failed true)) w fresh =
    status_sent-response (failure_fields (bytes "backend_timeout")) 504
      (failure_body target_url 504 (bytes "backend_timeout") ∷ []) w fresh
serve_outcome-status target_url false accepted (some (failed false)) w fresh =
    status_sent-response (failure_fields (bytes "backend_error")) 502
      (failure_body target_url 502 (bytes "backend_error") ∷ []) w fresh

-- The body of a response, if there is one, was read to its end and closed.
abbrev pub released_body : Option Exchange → Option Body
released_body none = none
released_body (some (answered r)) = some (record { unread = []; closed = true })
released_body (some (failed is_timeout)) = none

pub serve_outcome-body :
    (target_url : Bytes) (client_gone : Bool) (accepted : ℕ) (o : Option Exchange)
    → (serve_outcome target_url client_gone accepted o).body ≡ released_body o
unfolding serve_exchange serve_failure serve_answer
serve_outcome-body target_url gone accepted none = refl
serve_outcome-body target_url gone accepted (some (answered r)) = ground arith
serve_outcome-body target_url gone accepted (some (failed late)) = refl

-- The client has got the JSON of a failure.
abbrev pub IsFailure : Bytes → ℕ → Bytes → ResponseWriter → ResponseWriter → Type 0
IsFailure target_url status kind before w =
    (s : Sent) × (w.sent ≡ some s)
    × (s.status ≡ status)
    × (Header.get (bytes "X-PeakShield-Error") s.headers ≡ kind)
    × (Header.get (bytes "Content-Type") s.headers ≡ bytes "application/json; charset=utf-8")
    × (w.body ≡ before.body ++ failure_body target_url status kind)

write_error-IsFailure :
    (target_url : Bytes) (status : ℕ) (kind : Bytes) (w : ResponseWriter)
    → w.sent ≡ none
    → IsFailure target_url status kind w (apply_all (write_error target_url status kind) w)
unfolding write_error canonical
write_error-IsFailure target_url status kind w fresh =
    let body = failure_body target_url status kind in
    let h = edited (failure_fields kind) w.header in
    let whole = apply_all-response (failure_fields kind) status (body ∷ []) w fresh in
    (
      record { status = status; headers = h },
      ap (λ x. x.sent) whole,
      refl,
      get-set_other (bytes "X-Content-Type-Options") (bytes "X-PeakShield-Error") _ _ refl
          ∙ get-set_same (bytes "X-PeakShield-Error") kind _,
      get-set_other (bytes "X-Content-Type-Options") (bytes "Content-Type") _ _ refl
          ∙ get-set_other (bytes "X-PeakShield-Error") (bytes "Content-Type") _ _ refl
          ∙ get-set_same (bytes "Content-Type") (bytes "application/json; charset=utf-8") w.header,
      ap (λ x. x.body) whole ∙ ap (λ x. w.body ++ x) (append-nil body),
    )

-- Which failure an outcome is.
abbrev pub failure_of : Option Exchange → Option (ℕ × Bytes)
failure_of none = some (502, bytes "request_build_failed")
failure_of (some (answered r)) = none
failure_of (some (failed true)) = some (504, bytes "backend_timeout")
failure_of (some (failed false)) = some (502, bytes "backend_error")

failure_ops :
    (target_url : Bytes) (accepted : ℕ) (o : Option Exchange) (status : ℕ) (kind : Bytes)
    → failure_of o ≡ some (status, kind)
    → (serve_outcome target_url false accepted o).ops ≡ write_error target_url status kind
unfolding serve_exchange serve_failure
failure_ops target_url accepted none status kind e = cc
failure_ops target_url accepted (some (answered r)) status kind e = cc
failure_ops target_url accepted (some (failed true)) status kind e = cc
failure_ops target_url accepted (some (failed false)) status kind e = cc

pub serve_outcome-IsFailure :
    (target_url : Bytes) (client_gone : Bool) (accepted : ℕ) (o : Option Exchange)
    (w : ResponseWriter) (status : ℕ) (kind : Bytes)
    → w.sent ≡ none
    → client_gone ≡ false
    → failure_of o ≡ some (status, kind)
    → IsFailure target_url status kind w
        (apply_all (serve_outcome target_url client_gone accepted o).ops w)
serve_outcome-IsFailure target_url gone accepted o w status kind fresh here failure =
    rw (here, failure_ops target_url accepted o status kind failure)
      (write_error-IsFailure target_url status kind w fresh)

-- The fields that the proxy sets on an answer.
abbrev pub answer_names : List Bytes
answer_names = bytes "X-PeakShield-Proxied" ∷ bytes "Via" ∷ []

pub values-answer_fields :
    (k : Bytes) (r : Response) (h : Header)
    → names_key k answer_names ≡ false
    → values_at k (edited (answer_fields r) h)
      ≡ values_at k h ++ all_values k (forwarded_entries r.header)
values-answer_fields k r h other =
    ap values_or_nil (
      find-set_other (bytes "Via") k _ _ (ground arith)
      ∙ find-set_other (bytes "X-PeakShield-Proxied") k _ _ (ground arith))
    ∙ values-copy_response_headers k h r.header
