-- ===== src/Server/Tests.antt =====
-- main.go: requests through all handlers, at concrete moments.
use peakshield.Prelude.{Bool, ◌≡◌, refl, inl, [], ◌∷◌, some, false}
use peakshield.Prelude.Int.{pos, sub64}
use peakshield.Prelude.Bytes.{Bytes, bytes, decimal}
use peakshield.Prelude.Fixed.{fixed, units}
use peakshield.Http.Writer.{ResponseWriter, fresh_writer}
use peakshield.Config.Load.{validate}
use peakshield.Config.Load.Laws.{Consistent, validate_iff}
use peakshield.Config.Load.Defaults.{defaults}
use peakshield.RateLimiter.Limiter.{new, allow}
use peakshield.WaitingRoom.Goroutine.{forwarded_late, queue_full_page}
use peakshield.WaitingRoom.WaitPage.{mode_queue_full, page_body, set_retry_after}
use peakshield.WaitingRoom.WaitPage.Headers.{IsWaitPage}
use peakshield.Proxy.Request.{Request}
use peakshield.Proxy.Serve.{Response, answered}
use peakshield.Server.{Setup, Moment, client_ip, proxy_handler}
use peakshield.Server.Laws.{IsRefusal, refused_lem, turned_away_lem}

abbrev setup : Setup
setup = record {
  target_url = bytes "http://backend";
  target = record { scheme = bytes "http"; host = bytes "backend"; path = []; raw_query = [] };
  strip_threshold = pos 40;
  estimate = λ _. pos 10;
  reparse = some;
  detect = λ _. bytes "text/plain; charset=utf-8";
}

abbrev request : Request
request = record {
  method = bytes "GET";
  path = bytes "/";
  raw_query = [];
  header = [];
  host = bytes "shop";
  remote_addr = bytes "10.0.0.7";
  tls = false;
  body = [];
}

abbrev page : Response
page = record {
  status = 200;
  header = (bytes "Content-Type", bytes "text/html" ∷ []) ∷ [];
  chunks = bytes "<im" ∷ bytes "g>" ∷ [];
}

-- Tokens for two requests, and for none.
abbrev generous : Bytes → Bool
generous ip =
    (allow fixed
      (new fixed (record { rate_per_nano = units 100; burst_size = units 2_000_000_000 })) ip
      (pos 5) (pos 5)).1

abbrev strict : Bytes → Bool
strict ip =
    (allow fixed (new fixed (record { rate_per_nano = units 100; burst_size = units 0 })) ip (pos 5)
      (pos 5)).1

-- A moment of full load, at which a request comes through from the queue.
abbrev rush : Moment
rush = record {
  allowed = generous;
  reply = forwarded_late (pos 3);
  active_requests = pos 50;
  do_request = λ _. answered page;
  client_gone = false;
  accepted = 9;
}

refused_lem_example :
    (out : ResponseWriter) × (proxy_handler setup
        (record rush { allowed = strict })
        request
        fresh_writer
      ≡ some out)
    × IsRefusal fresh_writer out
unfolding client_ip new allow sub64
refused_lem_example =
    refused_lem setup (record rush { allowed = strict }) request fresh_writer refl refl

turned_away_lem_example :
    (out : ResponseWriter) × (proxy_handler setup
        (record rush { reply = queue_full_page (pos 501) })
        request
        fresh_writer
      ≡ some out)
    × IsWaitPage (decimal (pos 10)) (page_body (λ _. pos 10) mode_queue_full (pos 0)) out
unfolding client_ip new allow sub64
turned_away_lem_example =
    turned_away_lem setup (record rush { reply = queue_full_page (pos 501) }) request fresh_writer
      (pos 501) (page_body (λ _. pos 10) mode_queue_full (pos 0)) refl refl (inl (refl, refl))

-- The writer with Retry-After, as a request from the queue is served with.
abbrev late : ResponseWriter
late = set_retry_after (λ _. pos 10) (pos 3) fresh_writer

rules : Consistent fixed (defaults fixed)
unfolding validate
rules = (validate_iff fixed (defaults fixed)).0 refl
