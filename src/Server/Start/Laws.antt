-- ===== src/Server/Start/Laws.antt =====
-- main.go: what holds of a program that has started.
use peakshield.Prelude.{
  ℕ, ◌^◌, ◌<◌, ◌≡◌, refl, ap, subst, inl, inr, true, false, Option, arith, length,
}
use peakshield.Prelude.Int.{ℤ, pos, negsuc, pos_part, ◌<ℤ◌, ◌≤ℤ◌}
use peakshield.Prelude.Bytes.{Bytes}
use peakshield.Prelude.Family.{sum_below}
use peakshield.Prelude.Float.{Float64}
use peakshield.Prelude.Result.{Result, ok, err, ◌>>=◌, map_err}
use peakshield.Config.Parse.{Env}
use peakshield.Config.Load.{Config, LoadError, load}
use peakshield.Config.Load.Laws.{Consistent, load_lem}
use peakshield.RateLimiter.Bucket.{rates}
use peakshield.RateLimiter.Limiter
use peakshield.RateLimiter.Bucket.Bounds.{Sound}
use peakshield.WaitingRoom.System.{System, Reach}
use peakshield.WaitingRoom.Invariant.{in_flight, admitted_directly}
use peakshield.WaitingRoom.Safety.{counters_exact, direct_path_bounded, queue_bounded}
use peakshield.Proxy.Request.{Url}
use peakshield.Proxy.Transport.{ReverseProxy, NewError, IsReady, new_lem}
use peakshield.Proxy.Transport
use peakshield.Server.Start.{
  App, assembled, StartError, configuration_failed, proxy_failed, new_limiter, limits_of, start,
}

module _ (float : Float64) (parse_duration : Bytes → Option ℤ) (parse_url : Bytes → Option Url)
    (env : Env) where
  -- A program that starts has loaded its configuration and made its proxy, and the rest is built
  -- from them.
  abbrev pub Built : App float → Type 0
  Built a =
      (load float parse_duration env ≡ ok a.cfg)
      × (Transport.new float parse_url a.cfg ≡ ok a.prx)
      × (a ≡ assembled float a.cfg a.prx)

  made :
      (c : Config float)
      → load float parse_duration env ≡ ok c
      → (r : Result NewError ReverseProxy) {a : App float} → Transport.new float parse_url c ≡ r
      → (map_err {F = StartError float} proxy_failed r >>= λ p. ok (assembled float c p)) ≡ ok a
      → Built a
  made c loaded (ok p) new h = subst Built (cc) (loaded, new, refl)
  made c loaded (err x) new h = absurd (ground (arith, h))

  loaded :
      (r : Result (LoadError float) (Config float)) {a : App float}
      → load float parse_duration env ≡ r
      → (map_err {F = StartError float} configuration_failed r >>= λ c.
          map_err proxy_failed (Transport.new float parse_url c) >>= λ p. ok (assembled float c p))
        ≡ ok a
      → Built a
  loaded (ok c) e h = made c e (Transport.new float parse_url c) refl h
  loaded (err x) e h = absurd (ground (arith, h))

  pub start_inversion : {a : App float} → start float parse_duration parse_url env ≡ ok a → Built a
  unfolding start
  start_inversion h = loaded (load float parse_duration env) refl h

module _ (float : Float64) where
  open float use {le, lt, of_int, le_or_lt, le_number, lt_le, of_int_mono, div_nonneg}

  above_zero :
      (x : Float64.Real float)
      → le x x ≡ true
      → le x (of_int (pos 0)) ≡ false
      → le (of_int (pos 0)) x ≡ true
  above_zero x number positive =
      let zero_number = of_int_mono (pos 0) (pos 0) (omega arith) in
      elim (le_or_lt x (of_int (pos 0)) number zero_number) [
        | inl below ↦ absurd (ground (arith, below, positive))
        | inr above ↦ lt_le (of_int (pos 0)) x above
      ]

  burst_nonneg : (z : ℤ) → pos 0 <ℤ z → le (of_int (pos 0)) (of_int z) ≡ true
  burst_nonneg z h = of_int_mono (pos 0) z (omega (arith, h))

  -- The limiter of a configuration that keeps the rules, with a RateLimit that is not NaN, neither
  -- refills nor holds a negative number of tokens.
  new_limiter-Sound :
      (c : Config float)
      → Consistent float c
      → le c.rate_limit c.rate_limit ≡ true
      → Sound float (new_limiter float c).rates
  unfolding new_limiter rates Limiter.new
  new_limiter-Sound c rules number = (
    div_nonneg c.rate_limit 999_999_999 (above_zero c.rate_limit number rules.1),
    burst_nonneg c.burst_size rules.2,
  )

  pos_part_pos : (z : ℤ) → pos 0 <ℤ z → z ≡ pos (pos_part z)
  pos_part_pos (pos n) h = refl
  pos_part_pos (negsuc n) h = absurd (omega (arith, h))

  -- Whatever environment the program was started in, and in whatever order the accesses of fewer than
  -- 2^63 requests come: the requests in flight that took the direct path are never more than
  -- MaxConcurrent, the queue never holds more tickets than QueueSize, and activeRequests is the number
  -- of requests that stand between its increment and its decrement. A configuration that would break
  -- this is not loaded.
  pub start_bounded :
      (parse_duration : Bytes → Option ℤ) (parse_url : Bytes → Option Url) (env : Env)
      {a : App float} {n : ℕ} {s : System}
      → start float parse_duration parse_url env ≡ ok a
      → n < 2 ^ 63
      → Reach n a.limits s
      → (pos (sum_below admitted_directly n s.pc) ≤ℤ a.cfg.max_concurrent)
        × (pos (length s.room.queue) ≤ℤ a.cfg.queue_size)
        × (s.room.active_requests ≡ pos (sum_below in_flight n s.pc))
  unfolding limits_of
  start_bounded parse_duration parse_url env {a} {n} {s} h small r =
      let (loaded, _, built) = start_inversion float parse_duration parse_url env h in
      let rules = (load_lem float parse_duration env loaded).1 in
      let limits : a.limits ≡ limits_of float a.cfg = ap (λ x. x.limits) built in
      let same : Reach n (limits_of float a.cfg) s = subst (λ c. Reach n c s) limits r in
      let breaker : pos 0 ≤ℤ a.cfg.max_concurrent = omega (arith, rules.3) in
      let room = queue_bounded small breaker same in
      (
        direct_path_bounded small breaker same,
        rw (pos_part_pos a.cfg.queue_size rules.4) (omega (arith, room)),
        (counters_exact small breaker same).0,
      )
