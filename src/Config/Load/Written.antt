-- ===== src/Config/Load/Written.antt =====
-- config/config.go: every configuration that keeps the rules can be written in the environment.
use peakshield.Config.Parse.{Env, env_string, env_bool, env_duration, env_float64, parse_bool}
use peakshield.Prelude.{◌≡◌, refl, ◌≢◌, Bool, true, false, Option, some, [], arith}
use peakshield.Prelude.Int.{ℤ, pos, ◌<ℤ◌, InInt64}
use peakshield.Prelude.Bytes.{Bytes, bytes, eqb_iff, decimal}
use peakshield.Prelude.Float.{Float64}
use peakshield.Prelude.Result.{ok}
use peakshield.Config.Parse.Print.{env_int64-decimal}
use peakshield.Config.Load.{Config, read_config, load}
use peakshield.Config.Load.Laws.{Consistent, validate_iff}

-- The variable holds the text, which is not empty, and so no default takes its place.
abbrev Holds : Env → Bytes → Bytes → Type 0
Holds env key text = (env key ≡ text) × (text ≢ [])

-- The variable holds a text that time.ParseDuration reads as `d`, and `d` is positive.
abbrev HoldsDuration : (Bytes → Option ℤ) → Env → Bytes → ℤ → Type 0
HoldsDuration parse_duration env key d =
    (env key ≢ []) × (parse_duration (env key) ≡ some d) × (pos 0 <ℤ d)

-- The variable holds the decimal digits of `z`, which has 64 bits.
abbrev HoldsInt : Env → Bytes → ℤ → Type 0
HoldsInt env key z = InInt64 z × (env key ≡ decimal z)

-- "true" or "false"
abbrev bool_text : Bool → Bytes
bool_text true = bytes "true"
bool_text false = bytes "false"

module _ (float : Float64) where
  -- The environment's variables hold the fields of the configuration, as text.
  pub record Written (parse_duration : Bytes → Option ℤ) (env : Env) (c : Config float)
      : Type 0 where
    pub listen : Holds env (bytes "PEAKSHIELD_LISTEN") c.listen_addr
    pub metrics : Holds env (bytes "PEAKSHIELD_METRICS_LISTEN") c.metrics_listen_addr
    pub target : env (bytes "PEAKSHIELD_TARGET") ≡ c.target_url
    pub insecure : env (bytes "PEAKSHIELD_INSECURE_SKIP_VERIFY") ≡ bool_text c.insecure_skip_verify
    pub read : HoldsDuration parse_duration env (bytes "PEAKSHIELD_READ_TIMEOUT") c.read_timeout
    pub write : HoldsDuration parse_duration env (bytes "PEAKSHIELD_WRITE_TIMEOUT") c.write_timeout
    pub idle : HoldsDuration parse_duration env (bytes "PEAKSHIELD_IDLE_TIMEOUT") c.idle_timeout
    pub backend :
        HoldsDuration parse_duration env (bytes "PEAKSHIELD_BACKEND_TIMEOUT") c.backend_timeout
    pub rate :
        (env (bytes "PEAKSHIELD_RATE_LIMIT") ≢ [])
        × (Float64.parse float (env (bytes "PEAKSHIELD_RATE_LIMIT")) ≡ some c.rate_limit)
    pub burst : HoldsInt env (bytes "PEAKSHIELD_BURST") c.burst_size
    pub concurrent : HoldsInt env (bytes "PEAKSHIELD_MAX_CONCURRENT") c.max_concurrent
    pub queue_size : HoldsInt env (bytes "PEAKSHIELD_QUEUE_SIZE") c.queue_size
    pub queue : HoldsDuration parse_duration env (bytes "PEAKSHIELD_QUEUE_TIMEOUT") c.queue_timeout
    pub strip : HoldsInt env (bytes "PEAKSHIELD_STRIP_THRESHOLD") c.strip_threshold

env_string-Holds :
    (env : Env) (key default text : Bytes) → Holds env key text → env_string env key default ≡ text
unfolding env_string
env_string-Holds env key default text (e, given) = rw e (ground (arith, eqb_iff text []))

env_duration-Holds :
    (parse_duration : Bytes → Option ℤ) (env : Env) (key : Bytes) (default d : ℤ)
    → HoldsDuration parse_duration env key d
    → env_duration parse_duration env key default ≡ ok d
unfolding env_duration
env_duration-Holds parse_duration env key default d (given, read, positive) =
    ground (arith, eqb_iff (env key) [])

env_float64-Holds :
    (float : Float64) (env : Env) (key : Bytes) (default x : Float64.Real float)
    → env key ≢ []
    → Float64.parse float (env key) ≡ some x
    → env_float64 float env key default ≡ ok x
unfolding env_float64
env_float64-Holds float env key default x given read = ground (arith, eqb_iff (env key) [])

env_bool-Holds :
    (env : Env) (key : Bytes) (default b : Bool)
    → env key ≡ bool_text b
    → env_bool env key default ≡ ok b
unfolding env_bool parse_bool
env_bool-Holds env key default true e = rw e refl
env_bool-Holds env key default false e = rw e refl

module _ (float : Float64) where
  read_config-Written :
      (parse_duration : Bytes → Option ℤ) (env : Env) (c : Config float)
      → Written float parse_duration env c
      → c.target_url ≢ []
      → read_config float parse_duration env ≡ ok c
  unfolding read_config
  read_config-Written parse_duration env c w target =
      rw
        (
          env_bool-Holds env (bytes "PEAKSHIELD_INSECURE_SKIP_VERIFY") false _ w.insecure,
          env_duration-Holds parse_duration env (bytes "PEAKSHIELD_READ_TIMEOUT") _ _ w.read,
          env_duration-Holds parse_duration env (bytes "PEAKSHIELD_WRITE_TIMEOUT") _ _ w.write,
          env_duration-Holds parse_duration env (bytes "PEAKSHIELD_IDLE_TIMEOUT") _ _ w.idle,
          env_duration-Holds parse_duration env (bytes "PEAKSHIELD_BACKEND_TIMEOUT") _ _ w.backend,
          env_float64-Holds float env (bytes "PEAKSHIELD_RATE_LIMIT") _ _ w.rate.0 w.rate.1,
          (env_int64-decimal env (bytes "PEAKSHIELD_BURST") _ _ w.burst.0 w.burst.1).0,
          (env_int64-decimal env (bytes "PEAKSHIELD_MAX_CONCURRENT") _ _ w.concurrent.0
              w.concurrent.1).0,
          (env_int64-decimal env (bytes "PEAKSHIELD_QUEUE_SIZE") _ _ w.queue_size.0
              w.queue_size.1).1,
          env_duration-Holds parse_duration env (bytes "PEAKSHIELD_QUEUE_TIMEOUT") _ _ w.queue,
          (env_int64-decimal env (bytes "PEAKSHIELD_STRIP_THRESHOLD") _ _ w.strip.0 w.strip.1).0,
          env_string-Holds env (bytes "PEAKSHIELD_LISTEN") _ _ w.listen,
          env_string-Holds env (bytes "PEAKSHIELD_METRICS_LISTEN") _ _ w.metrics,
          env_string-Holds env (bytes "PEAKSHIELD_TARGET") _ _ (w.target, target),
        )
        refl

  -- Load is complete: where the environment's variables hold the fields of a configuration as text
  -- (integers in decimal, durations and the rate in any form that time.ParseDuration and
  -- strconv.ParseFloat read back, no text empty, each duration positive), and the configuration keeps
  -- the rules, Load returns exactly that configuration.
  pub load-Written :
      (parse_duration : Bytes → Option ℤ) (env : Env) (c : Config float)
      → Written float parse_duration env c
      → Consistent float c
      → load float parse_duration env ≡ ok c
  unfolding load
  load-Written parse_duration env c w good =
      rw (read_config-Written parse_duration env c w good.0, (validate_iff float c).1 good) refl
