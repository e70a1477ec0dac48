-- ===== src/Config/Load.antt =====
-- config/config.go: Config, Load and validate.
pub mod Laws
pub mod Defaults
pub mod Written
use peakshield.Prelude.{ℕ, ◌*◌, Bool, false, Option, [], if◌then◌else◌}
use peakshield.Prelude.Int.{ℤ, pos, leb_ℤ}
use peakshield.Prelude.Bytes.{Bytes, bytes, eqb}
use peakshield.Prelude.Float.{Float64}
use peakshield.Prelude.Result.{Result, ok, err, ◌>>=◌, map_err}
use peakshield.Config.Parse.{
  Env, ValueError, env_string, env_bool, env_duration, env_float64, env_int64, env_int,
}

-- n * time.Second
abbrev pub seconds : ℕ → ℤ
seconds n = pos (n * 1_000_000_000)

module _ (float : Float64) where
  open float use {Real, of_int, le}

  -- The durations are int64, in nanoseconds.
  pub record Config : Type 0 where
    pub listen_addr : Bytes
    pub metrics_listen_addr : Bytes
    pub target_url : Bytes
    pub insecure_skip_verify : Bool
    pub read_timeout : ℤ
    pub write_timeout : ℤ
    pub idle_timeout : ℤ
    pub backend_timeout : ℤ
    pub rate_limit : Real
    pub burst_size : ℤ  -- int64
    pub max_concurrent : ℤ  -- int64
    pub queue_size : ℤ  -- int
    pub queue_timeout : ℤ
    pub strip_threshold : ℤ  -- int64

  pub data LoadError : Type 0 where
    bad_variable : (key : Bytes) → (reason : ValueError) → LoadError
    target_empty : LoadError
    rate_limit_not_positive : (got : Real) → LoadError
    burst_not_positive : (got : ℤ) → LoadError
    max_concurrent_not_positive : (got : ℤ) → LoadError
    queue_size_not_positive : (got : ℤ) → LoadError
    strip_threshold_too_high : (threshold : ℤ) → (max_concurrent : ℤ) → LoadError
    write_timeout_too_short : (write : ℤ) → (queue : ℤ) → LoadError

  -- validate: the first rule that is broken
  unfoldable pub validate : Config → Result LoadError (Unit {0})
  validate c =
      if eqb c.target_url []
      then err target_empty
      else if le c.rate_limit (of_int (pos 0))
      then err (rate_limit_not_positive c.rate_limit)
      else if leb_ℤ c.burst_size (pos 0)
      then err (burst_not_positive c.burst_size)
      else if leb_ℤ c.max_concurrent (pos 0)
      then err (max_concurrent_not_positive c.max_concurrent)
      else if leb_ℤ c.queue_size (pos 0)
      then err (queue_size_not_positive c.queue_size)
      else if leb_ℤ c.max_concurrent c.strip_threshold
      then err (strip_threshold_too_high c.strip_threshold c.max_concurrent)
      else if leb_ℤ c.write_timeout c.queue_timeout
      then err (write_timeout_too_short c.write_timeout c.queue_timeout)
      else ok tt

  abbrev pub at {ℓ} : {A : Type ℓ} → Bytes → Result ValueError A → Result LoadError A
  at key r = map_err (bad_variable key) r

  -- Load up to the call of validate. `parse_duration` stands for time.ParseDuration.
  unfoldable pub read_config : (Bytes → Option ℤ) → Env → Result LoadError Config
  read_config parse_duration env = do
    let duration =
        λ (key : Bytes) (default : ℤ). at key (env_duration parse_duration env key default)
    let int64 = λ (key : Bytes) (default : ℤ). at key (env_int64 env key default)
    insecure ←
        at (bytes "PEAKSHIELD_INSECURE_SKIP_VERIFY")
          (env_bool env (bytes "PEAKSHIELD_INSECURE_SKIP_VERIFY") false)
    read ← duration (bytes "PEAKSHIELD_READ_TIMEOUT") (seconds 10)
    write ← duration (bytes "PEAKSHIELD_WRITE_TIMEOUT") (seconds 60)
    idle ← duration (bytes "PEAKSHIELD_IDLE_TIMEOUT") (seconds 120)
    backend ← duration (bytes "PEAKSHIELD_BACKEND_TIMEOUT") (seconds 15)
    rate ←
        at (bytes "PEAKSHIELD_RATE_LIMIT")
          (env_float64 float env (bytes "PEAKSHIELD_RATE_LIMIT") (of_int (pos 100)))
    burst ← int64 (bytes "PEAKSHIELD_BURST") (pos 200)
    max_concurrent ← int64 (bytes "PEAKSHIELD_MAX_CONCURRENT") (pos 50)
    queue_size ←
        at (bytes "PEAKSHIELD_QUEUE_SIZE") (env_int env (bytes "PEAKSHIELD_QUEUE_SIZE") (pos 500))
    queue ← duration (bytes "PEAKSHIELD_QUEUE_TIMEOUT") (seconds 30)
    strip ← int64 (bytes "PEAKSHIELD_STRIP_THRESHOLD") (pos 40)
    ok (record {
      listen_addr = env_string env (bytes "PEAKSHIELD_LISTEN") (bytes ":8080");
      metrics_listen_addr =
          env_string env (bytes "PEAKSHIELD_METRICS_LISTEN") (bytes "127.0.0.1:9090");
      target_url = env_string env (bytes "PEAKSHIELD_TARGET") (bytes "http://localhost:9090");
      insecure_skip_verify = insecure;
      read_timeout = read;
      write_timeout = write;
      idle_timeout = idle;
      backend_timeout = backend;
      rate_limit = rate;
      burst_size = burst;
      max_concurrent = max_concurrent;
      queue_size = queue_size;
      queue_timeout = queue;
      strip_threshold = strip;
    })

  unfoldable pub load : (Bytes → Option ℤ) → Env → Result LoadError Config
  unfolding read_config validate
  load parse_duration env = do cfg ← read_config parse_duration env; _ ← validate cfg; ok cfg
