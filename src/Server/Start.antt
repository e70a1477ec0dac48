-- ===== src/Server/Start.antt =====
-- main.go: main up to the two calls of ListenAndServe.
mod Tests
pub mod Laws
pub mod Overload
use peakshield.Prelude.{ℕ, Option}
use peakshield.Prelude.Int.{ℤ, pos_part}
use peakshield.Prelude.Bytes.{Bytes}
use peakshield.Prelude.Float.{Float64}
use peakshield.Prelude.Result.{Result, ok, err, ◌>>=◌, map_err}
use peakshield.Config.Parse.{Env}
use peakshield.Config.Load.{Config, LoadError, load}
use peakshield.RateLimiter.Bucket.{rates}
use peakshield.RateLimiter.Limiter
use peakshield.RateLimiter.Limiter.{Limiter}
use peakshield.WaitingRoom.Room.{Limits, Room}
use peakshield.WaitingRoom.Room
use peakshield.WaitingRoom.WaitPage.Estimate.{estimate_wait}
use peakshield.Proxy.Request.{Url}
use peakshield.Proxy.Transport.{ReverseProxy, NewError}
use peakshield.Proxy.Transport
use peakshield.Server.{Setup}
use peakshield.Server.Listen.{HttpServer, proxy_server, metrics_server}

module _ (float : Float64) where
  -- What main has put together when the servers begin to listen.
  pub record App : Type 0 where
    pub cfg : Config float
    pub rl : Limiter float
    pub limits : Limits  -- what the waiting room reads of cfg
    pub wr : Room
    pub prx : ReverseProxy
    pub proxy_server : HttpServer
    pub metrics_server : HttpServer

  -- the two calls of os.Exit(1)
  pub data StartError : Type 0 where
    configuration_failed : (reason : LoadError float) → StartError
    proxy_failed : (reason : NewError) → StartError

  -- ratelimiter.New
  unfoldable pub new_limiter : Config float → Limiter float
  new_limiter c = Limiter.new float (rates float c.rate_limit c.burst_size)

  -- waitingroom.New, whose channel has QueueSize places
  unfoldable pub limits_of : Config float → Limits
  limits_of c = record { max_concurrent = c.max_concurrent; queue_size = pos_part c.queue_size }

  -- the modules and the servers, built from the configuration and with the proxy
  abbrev pub assembled : Config float → ReverseProxy → App
  assembled c p = record {
    cfg = c;
    rl = new_limiter c;
    limits = limits_of c;
    wr = Room.new;
    prx = p;
    proxy_server = proxy_server float c;
    metrics_server = metrics_server float c;
  }

  -- `parse_duration` and `parse_url` stand for time.ParseDuration and url.Parse.
  unfoldable pub start : (Bytes → Option ℤ) → (Bytes → Option Url) → Env → Result StartError App
  start parse_duration parse_url env = do
    c ← map_err configuration_failed (load float parse_duration env)
    p ← map_err proxy_failed (Transport.new float parse_url c)
    ok (assembled c p)

  -- What the handlers read of it; `reparse` and `detect` are the functions of other packages.
  abbrev pub setup_of : (Url → Option Url) → (Bytes → Bytes) → App → Setup
  setup_of reparse detect a = record {
    target_url = a.prx.target_url;
    target = a.prx.target;
    strip_threshold = a.cfg.strip_threshold;
    estimate = estimate_wait float a.cfg.max_concurrent a.cfg.backend_timeout;
    reparse = reparse;
    detect = detect;
  }
