-- ===== src/Server/Start/Overload.antt =====
-- main.go: the load that the stripper sees is the number of requests in flight.
use peakshield.Prelude.{◌≤◌, ℕ, ◌^◌, ◌<◌, ◌≡◌, refl, ◌∙◌, true, Option, some, arith, take}
use mathlib.Core.Option
use peakshield.Prelude.Int.{ℤ, pos, ◌≤ℤ◌}
use peakshield.Prelude.Bytes.{Bytes, bytes}
use peakshield.Prelude.Family.{sum_below}
use peakshield.Prelude.Float.{Float64}
use peakshield.Prelude.Result.{ok}
use peakshield.Http.Header
use peakshield.Http.Header.{Header}
use peakshield.Http.Writer.{ResponseWriter, apply_all, write, write_header, edited, joined}
use peakshield.Config.Parse.{Env}
use peakshield.Config.Load.Laws.{load_lem}
use peakshield.WaitingRoom.Room.{get_active_requests}
use peakshield.WaitingRoom.System.{System, Reach}
use peakshield.WaitingRoom.Invariant.{in_flight}
use peakshield.Stripper.Html.{strip_html}
use peakshield.Stripper.Writer.{names_html}
use peakshield.Stripper.Writer.Laws.{prepared, without_length}
use peakshield.Proxy.Request.{Url, Request, build_backend_request}
use peakshield.Proxy.Serve.{Response, answered, answer_fields, serve_http}
use peakshield.Server.{Setup, Moment, client_ip, proxy_handler}
use peakshield.Server.Laws.{passed_on, busy_lem, calm_lem}
use peakshield.Server.Start.{App, start, setup_of}
use peakshield.Server.Start.Laws.{start_inversion, start_bounded}

module _ (float : Float64) (parse_duration : Bytes → Option ℤ) (parse_url : Bytes → Option Url)
    (reparse : Url → Option Url) (detect : Bytes → Bytes) (env : Env) where
  module _ {a : App float} {n : ℕ} {sys : System} (m : Moment) (r : Request) (w v : ResponseWriter)
      (started : start float parse_duration parse_url env ≡ ok a) (small : n < 2 ^ 63)
      (reached : Reach n a.limits sys) (asked : m.active_requests ≡ get_active_requests sys.room)
      (allowed : m.allowed (client_ip r.remote_addr) ≡ true) where
    abbrev handlers : Setup
    handlers = setup_of float reparse detect a

    load_seen : m.active_requests ≡ pos (sum_below in_flight n sys.pc)
    unfolding get_active_requests
    load_seen = asked ∙ (start_bounded float parse_duration parse_url env started small reached).2

    -- In a program that has started, a request that is let in and comes through the waiting room, and
    -- for which the stripper asks for the load when the requests in flight are MaxConcurrent or more,
    -- gets an HTML answer of the backend, with a status of at least 100, stripped: the two counters, the configuration's rules and the
    -- handlers fit together.
    pub overload_lem :
        (resp : Response)
        → passed_on handlers.estimate m.reply w ≡ some v
        → a.cfg.max_concurrent ≤ℤ pos (sum_below in_flight n sys.pc)
        → 100 ≤ resp.status
        → Option.map m.do_request (
            build_backend_request handlers.reparse handlers.target
              (record r { header = Header.del (bytes "Accept-Encoding") r.header }))
          ≡ some (answered resp)
        → names_html (Header.get (bytes "Content-Type") (edited (answer_fields resp) v.header))
          ≡ true
        → (out : Bytes) × (strip_html (joined (take m.accepted resp.chunks)) ≡ some out)
          × (proxy_handler handlers m r w
              ≡ some (
                  write out
                    (write_header resp.status (without_length (prepared (answer_fields resp) v)))))
    overload_lem resp on full fine answer html =
        let (loaded, _, _) = start_inversion float parse_duration parse_url env started in
        busy_lem handlers m r w float a.cfg v resp (load_lem float parse_duration env loaded).1
          (refl) (rw load_seen full) allowed on fine answer html

    -- And when the requests in flight are no more than StripThreshold, the client gets exactly what
    -- the proxy writes.
    pub underload_lem :
        passed_on handlers.estimate m.reply w ≡ some v
        → pos (sum_below in_flight n sys.pc) ≤ℤ a.cfg.strip_threshold
        → proxy_handler handlers m r w
          ≡ some (
              apply_all
                (serve_http handlers.reparse handlers.target_url handlers.target m.do_request
                  m.client_gone m.accepted r).ops
                v)
    underload_lem on few = calm_lem handlers m r w v (rw load_seen (ground arith)) allowed on
