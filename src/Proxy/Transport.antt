-- ===== src/Proxy/Transport.antt =====
-- proxy/proxy.go: New.
use peakshield.Prelude.{
  ℕ, ◌*◌, ◌^◌, ◌≤◌, ◌<◌, ◌≡◌, refl, ◌≢◌, ◌⊎◌, inl, inr, Bool, false, Option, none, some, [],
  if◌then◌else◌, arith, Bool-cases,
}
use peakshield.Prelude.Int.{ℤ, pos, ltb_ℤ, ◌<ℤ◌, sub64, sub64_pos}
use peakshield.Prelude.Bytes.{Bytes, eqb, eqb_iff}
use peakshield.Prelude.Float.{Float64}
use peakshield.Prelude.Result.{Result, ok, err, Returns, Returns-ok}
use peakshield.Config.Load.{Config, seconds}
use peakshield.Proxy.Request.{Url}

-- http.Transport, with the parameters of its net.Dialer
pub record Transport : Type 0 where
  pub dial_timeout : ℤ
  pub dial_keep_alive : ℤ
  pub max_idle_conns : ℕ
  pub max_idle_conns_per_host : ℕ
  pub max_conns_per_host : ℕ  -- 0: no limit
  pub idle_conn_timeout : ℤ
  pub insecure_skip_verify : Bool
  pub response_header_timeout : ℤ  -- 0: none
  pub tls_handshake_timeout : ℤ
  pub expect_continue_timeout : ℤ
  pub disable_compression : Bool
  pub force_attempt_http2 : Bool
  pub read_buffer_size : ℕ
  pub write_buffer_size : ℕ

pub record ReverseProxy : Type 0 where
  pub target : Url
  pub transport : Transport
  pub client_timeout : ℤ
  pub follows_redirects : Bool
  pub target_url : Bytes  -- cfg.TargetURL

pub data NewError : Type 0 where
  invalid_target : (target_url : Bytes) → NewError
  target_without_host : (target_url : Bytes) → NewError

-- one second below the client's timeout, or none
unfoldable pub header_timeout : ℤ → ℤ
header_timeout backend_timeout =
    if ltb_ℤ (seconds 1) backend_timeout then sub64 backend_timeout (seconds 1) else pos 0

module _ (float : Float64) where
  unfoldable pub new_transport : Config float → Transport
  unfolding header_timeout
  new_transport c = record {
    dial_timeout = seconds 30;
    dial_keep_alive = seconds 15;
    max_idle_conns = 1024;
    max_idle_conns_per_host = 256;
    max_conns_per_host = 0;
    idle_conn_timeout = seconds 90;
    insecure_skip_verify = c.insecure_skip_verify;
    response_header_timeout = header_timeout c.backend_timeout;
    tls_handshake_timeout = seconds 10;
    expect_continue_timeout = seconds 1;
    disable_compression = false;
    force_attempt_http2 = false;
    read_buffer_size = 32 * 1024;
    write_buffer_size = 32 * 1024;
  }

  -- what New makes of the outcome of url.Parse, with `none` for an error
  made_from : Config float → Option Url → Result NewError ReverseProxy
  unfolding new_transport
  made_from c none = err (invalid_target c.target_url)
  made_from c (some target) =
      if eqb target.host []
      then err (target_without_host c.target_url)
      else ok (record {
        target = target;
        transport = new_transport c;
        client_timeout = c.backend_timeout;
        follows_redirects = false;
        target_url = c.target_url;
      })

  -- `parse_url` stands for url.Parse.
  unfoldable pub new : (Bytes → Option Url) → Config float → Result NewError ReverseProxy
  unfolding made_from
  new parse_url c = made_from c (parse_url c.target_url)

-- A positive timeout of one second or less leaves the header timeout out; of any other it is one
-- second less, and so ends before the client's.
header_timeout_lem :
    (n : ℕ)
    → n < 2 ^ 63
    → ((header_timeout (pos n) ≡ pos 0) × (n ≤ 1_000_000_000))
      ⊎ ((pos 0 <ℤ header_timeout (pos n)) × (header_timeout (pos n) <ℤ pos n))
unfolding header_timeout
header_timeout_lem n h = elim (Bool-cases (ltb_ℤ (seconds 1) (pos n))) [
  | inl long ↦
      inr (rw (long, sub64_pos n 1_000_000_000 (ground arith) h) (ground arith, ground arith))
  | inr short ↦ inl (rw short refl, ground arith)
]

module _ (float : Float64) where
  -- What New promises of a proxy, for a BackendTimeout of n nanoseconds.
  abbrev pub IsReady : ℕ → ReverseProxy → Type 0
  IsReady n p =
      (p.target.host ≢ [])
      × (p.client_timeout ≡ pos n)
      × (((p.transport.response_header_timeout ≡ pos 0) × (n ≤ 1_000_000_000))
          ⊎ ((pos 0 <ℤ p.transport.response_header_timeout)
              × (p.transport.response_header_timeout <ℤ p.client_timeout)))

  made :
      (o : Option Url) (c : Config float) (n : ℕ)
      → c.backend_timeout ≡ pos n
      → n < 2 ^ 63
      → Returns (IsReady n) (made_from float c o)
  unfolding made_from new_transport
  made none c n t small = tt
  made (some u) c n t small = elim (Bool-cases (eqb u.host [])) [
    | inl no_host ↦ rw no_host tt
    | inr host ↦
        rw (host, t) (ground (arith, host, eqb_iff u.host []), refl, header_timeout_lem n small)
  ]

  -- A proxy that New returns has a backend with a host; its client waits as long as BackendTimeout,
  -- and, unless that is a second or less, gives up waiting for the response's header before.
  pub new_lem :
      (parse_url : Bytes → Option Url) (c : Config float) (n : ℕ) {p : ReverseProxy}
      → c.backend_timeout ≡ pos n
      → n < 2 ^ 63
      → new float parse_url c ≡ ok p
      → IsReady n p
  unfolding new
  new_lem parse_url c n t small =
      Returns-ok (IsReady n) (new float parse_url c) (made (parse_url c.target_url) c n t small)
