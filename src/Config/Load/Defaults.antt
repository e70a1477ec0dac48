-- ===== src/Config/Load/Defaults.antt =====
-- config/config.go: Load with no variable set, and a rate limit that is not a number.
use peakshield.Prelude.{◌≡◌, Option, [], false, arith}
use peakshield.Prelude.Int.{ℤ, pos}
use peakshield.Prelude.Bytes.{Bytes, bytes}
use mathlib.Core.Path.{fun_ext}
use peakshield.Prelude.Float.{Float64}
use peakshield.Prelude.Result.{ok}
use peakshield.Config.Parse.{
  Env, env_string, env_bool, env_duration, env_float64, env_int64, env_int,
}
use peakshield.Config.Load.{Config, validate, load, seconds}
use peakshield.Config.Load.Laws.{validate_iff}

module _ (float : Float64) where
  open float use {Real, of_int, le, le_trans, le_number, of_int_mono, of_int_one}

  -- The documented defaults.
  abbrev pub defaults : Config float
  defaults = record {
    listen_addr = bytes ":8080";
    metrics_listen_addr = bytes "127.0.0.1:9090";
    target_url = bytes "http://localhost:9090";
    insecure_skip_verify = false;
    read_timeout = seconds 10;
    write_timeout = seconds 60;
    idle_timeout = seconds 120;
    backend_timeout = seconds 15;
    rate_limit = of_int (pos 100);
    burst_size = pos 200;
    max_concurrent = pos 50;
    queue_size = pos 500;
    queue_timeout = seconds 30;
    strip_threshold = pos 40;
  }

  hundred : le (of_int (pos 100)) (of_int (pos 0)) ≡ false
  hundred = ground (
    arith,
    of_int_one,
    le_trans (of_int (pos 1)) (of_int (pos 100)) (of_int (pos 0)),
    of_int_mono (pos 1) (pos 100) (omega arith),
  )

  load_unset : (parse : Bytes → Option ℤ) → load float parse (λ _. []) ≡ ok defaults
  unfolding load env_string env_bool env_duration env_float64 env_int64 env_int
  load_unset parse = rw hundred

  -- With no variable set, Load succeeds, with the documented defaults.
  pub load-defaults :
      (parse : Bytes → Option ℤ) (env : Env)
      → ((key : Bytes) → env key ≡ [])
      → load float parse env ≡ ok defaults
  load-defaults parse env unset = rw (fun_ext unset) (load_unset parse)

  -- A rate limit that is NaN passes validate, in any configuration that is consistent otherwise.
  validate_nan :
      (c : Config float) (x : Real)
      → validate float c ≡ ok tt
      → le x x ≡ false
      → validate float (record c { rate_limit = x }) ≡ ok tt
  validate_nan c x h nan =
      let (a, _, p, q, r, s, t) = (validate_iff float c).0 h in
      (validate_iff float (record c { rate_limit = x })).1
        (a, ground (arith, le_number x (of_int (pos 0))), p, q, r, s, t)
