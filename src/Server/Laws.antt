-- ===== src/Server/Laws.antt =====
-- main.go: what the handlers of the public port promise together.
use peakshield.Prelude.{
  ◌≤◌, ◌≡◌, ◌⊎◌, refl, ap, ◌∙◌, true, false, Option, none, some, [], ◌∷◌, ◌++◌, take, arith, inl,
  inr, Bool-cases,
}
use mathlib.Core.Option
use peakshield.Prelude.Int.{ℤ, pos, leb_ℤ, ◌<ℤ◌, ◌≤ℤ◌}
use peakshield.Prelude.Bytes.{Bytes, bytes, decimal}
use peakshield.Prelude.Float.{Float64}
use peakshield.Http.Header.{Header, canonical, get-set_same, get-set_other}
use peakshield.Http.Header
use peakshield.Http.Writer.{
  ResponseWriter, Sent, apply_all, set_header, write_header, write, edited, joined,
}
use peakshield.Config.Load.{Config}
use peakshield.Config.Load.Laws.{Consistent}
use peakshield.WaitingRoom.Goroutine.{
  Reply, forwarded, forwarded_late, queue_full_page, timeout_page, hung_up,
}
use peakshield.WaitingRoom.WaitPage.{
  mode_queue_full, mode_timeout, page_body, render, set_retry_after,
}
use peakshield.WaitingRoom.WaitPage.Headers.{IsWaitPage, wait_page_lem}
use peakshield.Stripper.Html.{strip_html}
use peakshield.Stripper.Writer.{names_html, middleware}
use peakshield.Stripper.Writer.Laws.{html_stripped, middleware_total, prepared, without_length}
use peakshield.Proxy.Request.{Request, build_backend_request}
use peakshield.Proxy.Serve.{Response, answered, answer_fields, serve_http}
use peakshield.Proxy.Serve.Laws.{ops_answered}
use peakshield.Middleware.{chain_lem}
use peakshield.Server.{
  Setup, Moment, client_ip, http_error, rl_middleware, wr_middleware, stripped_proxy, proxy_handler,
  proxy_ops,
}

-- The client has got the plain text of a refusal.
abbrev pub IsRefusal : ResponseWriter → ResponseWriter → Type 0
IsRefusal before w =
    (h : Sent) × (w.sent ≡ some h)
    × (h.status ≡ 429)
    × (Header.get (bytes "Content-Type") h.headers ≡ bytes "text/plain; charset=utf-8")
    × (w.body ≡ before.body ++ bytes "429 Too Many Requests\n")

http_error-IsRefusal :
    (w : ResponseWriter)
    → w.sent ≡ none
    → IsRefusal w (http_error (bytes "429 Too Many Requests") 429 w)
unfolding http_error set_header write write_header canonical
http_error-IsRefusal w fresh = rw fresh (
  record {
    status = 429;
    headers =
        Header.set (bytes "X-Content-Type-Options") (bytes "nosniff")
          (Header.set (bytes "Content-Type") (bytes "text/plain; charset=utf-8") w.header);
  },
  refl,
  refl,
  get-set_other (bytes "X-Content-Type-Options") (bytes "Content-Type") _ _ refl
      ∙ get-set_same (bytes "Content-Type") (bytes "text/plain; charset=utf-8") w.header,
  refl,
)

-- The writer as the handler behind the waiting room gets it, if it is called.
abbrev pub passed_on : (ℤ → ℤ) → Reply → ResponseWriter → Option ResponseWriter
passed_on estimate forwarded w = some w
passed_on estimate (forwarded_late position) w = some (set_retry_after estimate position w)
passed_on estimate (queue_full_page position) w = none
passed_on estimate (timeout_page position) w = none
passed_on estimate hung_up w = none

over_threshold :
    (most active low threshold : ℤ)
    → threshold ≡ low
    → low <ℤ most
    → most ≤ℤ active
    → leb_ℤ active threshold ≡ false
over_threshold most active low threshold e h k = rw e (ground arith)

module _ (s : Setup) (m : Moment) (r : Request) (w : ResponseWriter) where
  handler_order :
      proxy_handler s m r w
      ≡ rl_middleware m.allowed (wr_middleware s.estimate m.reply (stripped_proxy s m)) r w
  unfolding proxy_handler
  handler_order =
      ap (λ h. h r w)
        (chain_lem (stripped_proxy s m)
          (rl_middleware m.allowed ∷ wr_middleware s.estimate m.reply ∷ []))

  let_in :
      m.allowed (client_ip r.remote_addr) ≡ true
      → proxy_handler s m r w ≡ render s.estimate some (stripped_proxy s m r) m.reply w
  unfolding rl_middleware wr_middleware
  let_in allowed = handler_order ∙ rw allowed refl

  -- A request that the rate limiter refuses is answered with status 429 and its text, where nothing
  -- was sent before, whatever the waiting room, the load and the backend: the limiter is the
  -- outermost handler.
  pub refused_lem :
      w.sent ≡ none
      → m.allowed (client_ip r.remote_addr) ≡ false
      → (out : ResponseWriter) × (proxy_handler s m r w ≡ some out) × IsRefusal w out
  unfolding rl_middleware
  refused_lem fresh refused = (
    http_error (bytes "429 Too Many Requests") 429 w,
    handler_order ∙ rw refused refl,
    http_error-IsRefusal w fresh,
  )

  rendered :
      (reply : Reply) {v : ResponseWriter}
      → passed_on s.estimate reply w ≡ some v
      → render s.estimate some (stripped_proxy s m r) reply w ≡ stripped_proxy s m r v
  unfolding render
  rendered forwarded e = ap (stripped_proxy s m r) (cc)
  rendered (forwarded_late position) e = ap (stripped_proxy s m r) (cc)
  rendered (queue_full_page position) e = absurd (ground (arith, e))
  rendered (timeout_page position) e = absurd (ground (arith, e))
  rendered hung_up e = absurd (ground (arith, e))

  forward :
      (v : ResponseWriter)
      → m.allowed (client_ip r.remote_addr) ≡ true
      → passed_on s.estimate m.reply w ≡ some v
      → proxy_handler s m r w ≡ stripped_proxy s m r v
  forward v allowed on = let_in allowed ∙ rendered m.reply on

  -- A request that is let in and finds the queue full, or whose wait times out, gets the wait page,
  -- where nothing was sent before, with the estimate for its position to come back after.
  pub turned_away_lem :
      (position : ℤ) (page : Bytes)
      → w.sent ≡ none
      → m.allowed (client_ip r.remote_addr) ≡ true
      → ((m.reply ≡ queue_full_page position)
          × (page ≡ page_body s.estimate mode_queue_full (pos 0)))
        ⊎ ((m.reply ≡ timeout_page position) × (page ≡ page_body s.estimate mode_timeout position))
      → (out : ResponseWriter) × (proxy_handler s m r w ≡ some out)
        × IsWaitPage (decimal (s.estimate position)) (w.body ++ page) out
  turned_away_lem position page fresh allowed (inl (full, at)) =
      let (out, e, good) =
        (wait_page_lem s.estimate some (stripped_proxy s m r) position w fresh).0 in
      (
        out,
        let_in allowed ∙ ap (λ x. render s.estimate some (stripped_proxy s m r) x w) full ∙ e,
        rw at good,
      )
  turned_away_lem position page fresh allowed (inr (late, at)) =
      let (out, e, good) =
        (wait_page_lem s.estimate some (stripped_proxy s m r) position w fresh).1 in
      (
        out,
        let_in allowed ∙ ap (λ x. render s.estimate some (stripped_proxy s m r) x w) late ∙ e,
        rw at good,
      )

  stripped_total :
      (v : ResponseWriter) → (out : ResponseWriter) × (stripped_proxy s m r v ≡ some out)
  unfolding stripped_proxy
  stripped_total v =
      middleware_total s.detect m.active_requests s.strip_threshold (proxy_ops s m r) r.header v

  render_total :
      (reply : Reply)
      → (out : ResponseWriter) × (render s.estimate some (stripped_proxy s m r) reply w ≡ some out)
  unfolding render
  render_total forwarded = stripped_total w
  render_total (forwarded_late position) = stripped_total (set_retry_after s.estimate position w)
  render_total (queue_full_page position) = (_, refl)
  render_total (timeout_page position) = (_, refl)
  render_total hung_up = (_, refl)

  -- The fuel of the filter is enough for the handlers to come to a result.
  pub proxy_handler_total : (out : ResponseWriter) × (proxy_handler s m r w ≡ some out)
  proxy_handler_total = elim (Bool-cases (m.allowed (client_ip r.remote_addr))) [
    | inl allowed ↦ let (out, e) = render_total m.reply in (out, let_in allowed ∙ e)
    | inr refused ↦ (
      http_error (bytes "429 Too Many Requests") 429 w,
      handler_order ∙ unfold rl_middleware in rw refused refl,
    )
  ]

  -- The request as the active stripper hands it on.
  abbrev uncompressed : Request
  uncompressed = record r { header = Header.del (bytes "Accept-Encoding") r.header }

  -- Under a configuration that keeps the rules of validate, a request that is let in and comes
  -- through the waiting room while at least MaxConcurrent requests are active, and that the backend
  -- answers with HTML and a status of at least 100, without being offered the client's Accept-Encoding, gets the page stripped:
  -- with the backend's status, without Content-Length, and with the stripped text of all that the
  -- client takes.
  pub busy_lem :
      (float : Float64) (c : Config float) (v : ResponseWriter) (resp : Response)
      → Consistent float c
      → s.strip_threshold ≡ c.strip_threshold
      → c.max_concurrent ≤ℤ m.active_requests
      → m.allowed (client_ip r.remote_addr) ≡ true
      → passed_on s.estimate m.reply w ≡ some v
      → 100 ≤ resp.status
      → Option.map m.do_request (build_backend_request s.reparse s.target uncompressed)
        ≡ some (answered resp)
      → names_html (Header.get (bytes "Content-Type") (edited (answer_fields resp) v.header)) ≡ true
      → (out : Bytes) × (strip_html (joined (take m.accepted resp.chunks)) ≡ some out)
        × (proxy_handler s m r w
            ≡ some (
                write out
                  (write_header resp.status (without_length (prepared (answer_fields resp) v)))))
  unfolding stripped_proxy
  busy_lem float c v resp rules threshold full allowed on fine answer html =
      let (out, e, same) =
        html_stripped s.detect m.active_requests s.strip_threshold (proxy_ops s m r) r.header v
          (answer_fields resp) resp.status (take m.accepted resp.chunks)
          (over_threshold c.max_concurrent m.active_requests c.strip_threshold s.strip_threshold
            threshold rules.5 full)
          (ops_answered s.reparse s.target_url s.target m.do_request m.client_gone m.accepted
            uncompressed resp fine answer)
          html in
      (out, e, forward v allowed on ∙ same)

  -- As long as no more requests are active than the strip threshold, the client of a request that
  -- is let in and comes through the waiting room gets exactly what the proxy writes.
  pub calm_lem :
      (v : ResponseWriter)
      → leb_ℤ m.active_requests s.strip_threshold ≡ true
      → m.allowed (client_ip r.remote_addr) ≡ true
      → passed_on s.estimate m.reply w ≡ some v
      → proxy_handler s m r w
        ≡ some (
            apply_all
              (serve_http s.reparse s.target_url s.target m.do_request m.client_gone m.accepted
                r).ops
              v)
  unfolding stripped_proxy middleware
  calm_lem v calm allowed on = forward v allowed on ∙ rw calm refl
