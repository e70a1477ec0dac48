-- ===== src/Server.antt =====
-- main.go: the handlers of the public port, from the rate limiter down to the proxy. The request's
-- way through them depends on the limiter, the waiting room and the backend at that time: a Moment.
pub mod Laws
pub mod Listen
pub mod Stats
pub mod Shutdown
pub mod Start
mod Tests
use peakshield.Prelude.{ℕ, List, Bool, Option, none, some, [], ◌∷◌, ◌++◌, if◌then◌else◌}
use peakshield.Prelude.Int.{ℤ}
use peakshield.Prelude.Bytes.{Bytes, bytes}
use peakshield.Http.Header.{Header}
use peakshield.Http.Writer.{Op, ResponseWriter, set_header, write_header, write}
use peakshield.WaitingRoom.Goroutine.{Reply}
use peakshield.WaitingRoom.WaitPage.{render}
use peakshield.Stripper.Writer.{middleware}
use peakshield.Proxy.Address.{split_host_port}
use peakshield.Proxy.Request.{Url, Request, OutRequest}
use peakshield.Proxy.Serve.{Exchange, serve_http}
use peakshield.Middleware.{chain}

-- What a handler makes of a request and its writer; `none` where it does not return.
abbrev Handler : Type 0
Handler = Request → ResponseWriter → Option ResponseWriter

-- net.SplitHostPort(r.RemoteAddr), or the whole address for an error
unfoldable pub client_ip : Bytes → Bytes
client_ip remote_addr = elim (split_host_port remote_addr) [
  | none ↦ remote_addr
  | some (host, port) ↦ host
]

-- http.Error
unfoldable pub http_error : Bytes → ℕ → ResponseWriter → ResponseWriter
http_error message code w = write (message ++ bytes "\n") (
    write_header code (
      set_header (bytes "X-Content-Type-Options") (bytes "nosniff")
        (set_header (bytes "Content-Type") (bytes "text/plain; charset=utf-8") w)))

-- rlMiddleware, with `allowed` for rl.Allow
unfoldable pub rl_middleware : (Bytes → Bool) → Handler → Handler
unfolding client_ip http_error
rl_middleware allowed next r w =
    if allowed (client_ip r.remote_addr)
    then next r w
    else some (http_error (bytes "429 Too Many Requests") 429 w)

-- The waiting room around a handler, where its goroutine comes to `reply`.
unfoldable pub wr_middleware : (ℤ → ℤ) → Reply → Handler → Handler
unfolding render
wr_middleware estimate reply next r w = render estimate some (next r) reply w

-- cfg and the functions of other packages, as far as the handlers use them
pub record Setup : Type 0 where
  pub target_url : Bytes
  pub target : Url
  pub strip_threshold : ℤ
  pub estimate : ℤ → ℤ  -- wr.estimateWait
  pub reparse : Url → Option Url  -- url.Parse of the URL's text
  pub detect : Bytes → Bytes  -- http.DetectContentType

pub record Moment : Type 0 where
  pub allowed : Bytes → Bool  -- rl.Allow, when the request comes
  pub reply : Reply  -- what the waiting room comes to
  pub active_requests : ℤ  -- wr.ActiveRequests(), when the stripper asks
  pub do_request : OutRequest → Exchange  -- client.Do
  pub client_gone : Bool  -- r.Context().Err() != nil, when client.Do has returned
  pub accepted : ℕ  -- the chunks of the response that the client takes

-- What the proxy does to its writer, by the header of the request that it is given.
abbrev pub proxy_ops : Setup → Moment → Request → Header → List Op
proxy_ops s m r h =
    (serve_http s.reparse s.target_url s.target m.do_request m.client_gone m.accepted
      (record r { header = h })).ops

-- The stripper around the proxy, which the stripper gives a writer of its own.
unfoldable pub stripped_proxy : Setup → Moment → Handler
unfolding middleware
stripped_proxy s m r w =
    middleware s.detect m.active_requests s.strip_threshold (proxy_ops s m r) r.header w

-- proxyHandler. The third middleware of the chain, the stripper, is applied to the proxy directly,
-- since it runs the proxy on a writer of its own type.
unfoldable pub proxy_handler : Setup → Moment → Handler
unfolding chain rl_middleware wr_middleware stripped_proxy
proxy_handler s m =
    chain (stripped_proxy s m) (rl_middleware m.allowed ∷ wr_middleware s.estimate m.reply ∷ [])
