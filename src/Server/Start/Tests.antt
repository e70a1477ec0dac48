-- ===== src/Server/Start/Tests.antt =====
-- main.go: a program that is started, and the properties there.

use peakshield.Prelude.{
  ℕ, ◌≡◌, refl, true, false, List, [], ◌∷◌, Option, some, none, if◌then◌else◌, length, arith,
}
use peakshield.Prelude.Int.{ℤ, pos, add64, sub64, ◌≤ℤ◌}
use peakshield.Prelude.Bytes.{Bytes, bytes, eqb}
use peakshield.Prelude.Family.{sum_below}
use peakshield.Prelude.Fixed.{fixed}
use peakshield.Prelude.Result.{ok}
use peakshield.Config.Parse.{
  Env, parse_int, env_int64, env_string, env_bool, env_duration, env_float64, env_int,
}
use peakshield.Config.Load.{Config, load}
use peakshield.Config.Load.Defaults.{defaults}
use peakshield.WaitingRoom.Goroutine.{Event, go, forwarded}
use peakshield.WaitingRoom.System.{System, init, run}
use peakshield.WaitingRoom.Schedules.{run-init-Reach}
use peakshield.WaitingRoom.Invariant.{in_flight, admitted_directly}
use peakshield.Proxy.Request.{Url, Request, build_backend_request, new_request}
use peakshield.Proxy.Transport.{ReverseProxy}
use peakshield.Proxy.Transport
use peakshield.Http.Header
use peakshield.Http.Header.{all_field_bytes}
use peakshield.Http.Writer.{fresh_writer, set_header, write, write_header}
use peakshield.RateLimiter.Bucket.{rates}
use peakshield.RateLimiter.Limiter
use peakshield.RateLimiter.Limiter.{allow}
use peakshield.WaitingRoom.Room.{get_active_requests}
use peakshield.Stripper.Html.{strip_html}
use peakshield.Stripper.Writer.{names_html}
use peakshield.Stripper.Writer.Laws.{prepared, without_length}
use peakshield.Proxy.Header.{add_values, copy_response_headers}
use peakshield.Proxy.Serve.{Response, answered, answer_fields}
use peakshield.Server.{Setup, Moment, client_ip, proxy_handler}
use peakshield.Server.Start.{App, assembled, start, new_limiter, limits_of, setup_of}
use peakshield.Server.Start.Laws.{start_bounded}
use peakshield.Server.Start.Overload.{overload_lem}

-- One request at a time, and every HTML page stripped.
abbrev tight : Env
tight key =
    if eqb key (bytes "PEAKSHIELD_MAX_CONCURRENT")
    then bytes "1"
    else if eqb key (bytes "PEAKSHIELD_STRIP_THRESHOLD")
    then bytes "0"
    else []

abbrev no_durations : Bytes → Option ℤ
no_durations s = none

abbrev backend : Url
backend = record { scheme = bytes "http"; host = bytes "backend"; path = []; raw_query = [] }

abbrev one_host : Bytes → Option Url
one_host s = some backend

abbrev tight_config : Config fixed
tight_config = record (defaults fixed) { max_concurrent = pos 1; strip_threshold = pos 0 }

abbrev tight_proxy : ReverseProxy
tight_proxy = record {
  target = backend;
  transport = Transport.new_transport fixed tight_config;
  client_timeout = tight_config.backend_timeout;
  follows_redirects = false;
  target_url = tight_config.target_url;
}

abbrev tight_app : App fixed
tight_app = assembled fixed tight_config tight_proxy

started : start fixed no_durations one_host tight ≡ ok tight_app
unfolding start load env_string env_bool env_duration env_float64 env_int64 env_int parse_int
    Transport.new
started = refl

-- The first request is in flight, and the second waits.
abbrev one_waits : List (ℕ × Event)
one_waits = (0, go) ∷ (1, go) ∷ (1, go) ∷ (1, go) ∷ (1, go) ∷ []

abbrev waiting : System
waiting = run 2 tight_app.limits init one_waits

start_bounded_example :
    (pos (sum_below admitted_directly 2 waiting.pc) ≤ℤ pos 1)
    × (pos (length waiting.room.queue) ≤ℤ pos 500)
    × (waiting.room.active_requests ≡ pos (sum_below in_flight 2 waiting.pc))
start_bounded_example =
    start_bounded fixed no_durations one_host tight started (omega arith)
      (run-init-Reach 2 tight_app.limits one_waits)

abbrev handlers : Setup
handlers = setup_of fixed some (λ _. bytes "text/plain; charset=utf-8") tight_app

abbrev page : Response
page = record {
  status = 200;
  header = (bytes "Content-Type", bytes "text/html" ∷ []) ∷ [];
  chunks = bytes "<im" ∷ bytes "g>" ∷ [];
}

abbrev request : Request
request = record {
  method = bytes "GET";
  path = bytes "/";
  raw_query = [];
  header = [];
  host = bytes "shop";
  remote_addr = bytes "10.0.0.7";
  tls = false;
  body = [];
}

-- What the first request meets.
abbrev served : Moment
served = record {
  allowed = λ ip. (allow fixed tight_app.rl ip (pos 5) (pos 5)).1;
  reply = forwarded;
  active_requests = get_active_requests waiting.room;
  do_request = λ _. answered page;
  client_gone = false;
  accepted = 9;
}

let_in : served.allowed (client_ip request.remote_addr) ≡ true
unfolding client_ip allow new_limiter Limiter.new rates sub64
let_in = refl

one_in_flight : sum_below in_flight 2 waiting.pc ≡ 1
unfolding run init add64 limits_of sum_below
one_in_flight = refl

overload_lem_example :
    (out : Bytes) × (strip_html (bytes "<img>") ≡ some out)
    × (proxy_handler handlers served request fresh_writer
        ≡ some (
            write out
              (write_header 200 (without_length (prepared (answer_fields page) fresh_writer)))))
unfolding build_backend_request new_request all_field_bytes names_html Header.get Header.find
    Header.set Header.assign Header.canonical copy_response_headers add_values Header.add set_header
overload_lem_example =
    overload_lem fixed no_durations one_host some (λ _. bytes "text/plain; charset=utf-8") tight
      served request fresh_writer fresh_writer started (omega arith)
      (run-init-Reach 2 tight_app.limits one_waits) refl let_in page refl
      (omega (arith, one_in_flight)) (omega arith) refl refl
