-- ===== src/Config/Tests.antt =====
-- config/config.go: environments that are read, and the properties there.
use peakshield.Prelude.{true, arith, ◌≡◌, refl, Option, none, some, [], if◌then◌else◌}
use peakshield.Prelude.Int.{ℤ, pos, negsuc}
use peakshield.Prelude.Bytes.{Bytes, bytes, eqb, decimal}
use peakshield.Prelude.Float.{Float64}
use peakshield.Prelude.Fixed.{fixed}
use peakshield.Prelude.Result.{ok, err}
use peakshield.Config.Parse.{
  Env, parse_int, env_int64, env_string, env_bool, env_duration, env_float64, env_int,
}
use peakshield.Config.Load.{Config, seconds, load, burst_not_positive}
use peakshield.Config.Load.Laws.{WellTyped, Consistent, load_lem}
use peakshield.Config.Load.Written.{Written, load-Written}
use peakshield.Config.Load.Defaults.{defaults, load-defaults}

-- An environment with one variable.
abbrev only : Bytes → Bytes → Env
only name value key = if eqb key name then value else []

-- Nothing is parsed as a duration.
abbrev no_durations : Bytes → Option ℤ
no_durations s = none

signed_integers : parse_int (bytes "-42") ≡ some (negsuc 41)
unfolding parse_int
signed_integers = refl

too_large : parse_int (bytes "9223372036854775808") ≡ none
unfolding parse_int
too_large = refl

-- With no variable set, the defaults are loaded.
loaded : load fixed no_durations (λ _. []) ≡ ok (defaults fixed)
loaded = load-defaults fixed no_durations (λ _. []) (λ key. refl)

-- A burst of zero is refused.
no_burst :
    load fixed no_durations (only (bytes "PEAKSHIELD_BURST") (bytes "0"))
    ≡ err (burst_not_positive (pos 0))
unfolding load env_string env_bool env_duration env_float64 env_int64 env_int parse_int
no_burst = refl

load_lem_example : WellTyped fixed (defaults fixed) × Consistent fixed (defaults fixed)
load_lem_example = load_lem fixed no_durations (λ _. []) loaded

-- Durations in whole seconds, and the rest of the syntax left out.
abbrev whole_seconds : Bytes → Option ℤ
whole_seconds s =
    if eqb s (bytes "20s")
    then some (seconds 20)
    else if eqb s (bytes "90s")
    then some (seconds 90)
    else none

abbrev by_hand : Config fixed
by_hand = record {
  listen_addr = bytes ":80";
  metrics_listen_addr = bytes "localhost:9";
  target_url = bytes "http://shop";
  insecure_skip_verify = true;
  read_timeout = seconds 20;
  write_timeout = seconds 90;
  idle_timeout = seconds 20;
  backend_timeout = seconds 20;
  rate_limit = Float64.of_int fixed (pos 7);
  burst_size = pos 12;
  max_concurrent = pos 30;
  queue_size = pos 9;
  queue_timeout = seconds 20;
  strip_threshold = negsuc 4;
}

abbrev by_hand_env : Env
by_hand_env key =
    if eqb key (bytes "PEAKSHIELD_LISTEN")
    then bytes ":80"
    else if eqb key (bytes "PEAKSHIELD_METRICS_LISTEN")
    then bytes "localhost:9"
    else if eqb key (bytes "PEAKSHIELD_TARGET")
    then bytes "http://shop"
    else if eqb key (bytes "PEAKSHIELD_INSECURE_SKIP_VERIFY")
    then bytes "true"
    else if eqb key (bytes "PEAKSHIELD_WRITE_TIMEOUT")
    then bytes "90s"
    else if eqb key (bytes "PEAKSHIELD_RATE_LIMIT")
    then bytes "7"
    else if eqb key (bytes "PEAKSHIELD_BURST")
    then bytes "12"
    else if eqb key (bytes "PEAKSHIELD_MAX_CONCURRENT")
    then bytes "30"
    else if eqb key (bytes "PEAKSHIELD_QUEUE_SIZE")
    then bytes "9"
    else if eqb key (bytes "PEAKSHIELD_STRIP_THRESHOLD")
    then bytes "-5"
    else bytes "20s"

by_hand-Written : Written fixed whole_seconds by_hand_env by_hand
unfolding decimal
by_hand-Written = record {
  listen = (refl, λ e. cc);
  metrics = (refl, λ e. cc);
  target = refl;
  insecure = refl;
  read = (λ e. cc, refl, omega arith);
  write = (λ e. cc, refl, omega arith);
  idle = (λ e. cc, refl, omega arith);
  backend = (λ e. cc, refl, omega arith);
  rate = (λ e. cc, refl);
  burst = (omega arith, refl);
  concurrent = (omega arith, refl);
  queue_size = (omega arith, refl);
  queue = (λ e. cc, refl, omega arith);
  strip = (omega arith, refl);
}

load-Written_example : load fixed whole_seconds by_hand_env ≡ ok by_hand
load-Written_example =
    load-Written fixed whole_seconds by_hand_env by_hand by_hand-Written
      (λ e. cc, refl, omega arith, omega arith, omega arith, omega arith, omega arith)
