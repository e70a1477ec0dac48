-- ===== src/Config/Load/Laws.antt =====
-- config/config.go: what Load promises.
use peakshield.Prelude.{
  ◌∷◌, ℕ, ◌==◌, Bool, ◌≡◌, refl, ◌≢◌, ◌↔◌, Option, none, some, [], true, false, arith, inl, inr,
  Option-cases, Bool-cases,
}
use peakshield.Prelude.Int.{ℤ, pos, ◌<ℤ◌, leb_ℤ, InInt64}
use peakshield.Prelude.Bytes.{Bytes, eqb, eqb_iff}
use peakshield.Prelude.Float.{Float64}
use peakshield.Prelude.Result.{
  Result, ok, err, ◌>>=◌, Returns, Returns->>=, Returns-map_err, Returns-ok, Returns->>=_any,
}
use peakshield.Config.Parse.{Env, env_duration, env_int64, env_int, parse_int}
use peakshield.Config.Parse.{ValueError, invalid_integer, signed_in_range, parse_digits, parsed}
use peakshield.Config.Load.{Config, LoadError, at, bad_variable, validate, read_config, load}

module _ (float : Float64) where
  open float use {Real, of_int, le}

  -- The rules between the fields.
  abbrev pub Consistent : Config float → Type 0
  Consistent c =
      (c.target_url ≢ [])
      × (le c.rate_limit (of_int (pos 0)) ≡ false)
      × (pos 0 <ℤ c.burst_size)
      × (pos 0 <ℤ c.max_concurrent)
      × (pos 0 <ℤ c.queue_size)
      × (c.strip_threshold <ℤ c.max_concurrent)
      × (c.queue_timeout <ℤ c.write_timeout)

  -- validate accepts a configuration exactly if it keeps all rules.
  pub validate_iff : (c : Config float) → (validate float c ≡ ok tt) ↔ Consistent c
  unfolding validate
  validate_iff c =
      (λ h. ground (arith, eqb_iff c.target_url []), λ k. ground (arith, eqb_iff c.target_url []))

env_duration-Returns :
    (parse : Bytes → Option ℤ) (env : Env) (key : Bytes) (default : ℤ)
    → pos 0 <ℤ default
    → Returns (λ d. pos 0 <ℤ d) (env_duration parse env key default)
unfolding env_duration
env_duration-Returns parse env key default h = elim (Bool-cases (eqb (env key) [])) [
  | inl unset ↦ rw unset h
  | inr given ↦ elim (Option-cases (parse (env key))) [
    | inl bad ↦ rw (given, bad) tt
    | inr (d, good) ↦ elim (Bool-cases (leb_ℤ d (pos 0))) [
      | inl not_positive ↦ rw (given, good, not_positive) tt
      | inr positive ↦ rw (given, good, positive) (ground arith)
    ]
  ]
]

signed_in_range-InInt64 :
    (negative : Bool) (o : Option ℕ) {a : ℤ} → signed_in_range negative o ≡ some a → InInt64 a
signed_in_range-InInt64 negative none h = cc
signed_in_range-InInt64 true (some n) h = ground arith
signed_in_range-InInt64 false (some n) h = ground arith

parse_int-InInt64 : (s : Bytes) {a : ℤ} → parse_int s ≡ some a → InInt64 a
unfolding parse_int
parse_int-InInt64 [] h = cc
parse_int-InInt64 (c ∷ s) h = elim (Bool-cases (c == b'-')) [
  | inl minus ↦ signed_in_range-InInt64 true (parse_digits s) (rw minus at h)
  | inr no_minus ↦ elim (Bool-cases (c == b'+')) [
    | inl plus ↦ signed_in_range-InInt64 false (parse_digits s) (rw (no_minus, plus) at h)
    | inr digit ↦ signed_in_range-InInt64 false (parse_digits (c ∷ s)) (rw (no_minus, digit) at h)
  ]
]

parsed-Returns {ℓ κ} :
    {A : Type ℓ} (P : A → Type κ) (parse : Bytes → Option A) (invalid : Bytes → ValueError)
    (v : Bytes) (default : A)
    → P default
    → ((s : Bytes) (a : A) → parse s ≡ some a → P a)
    → Returns P (parsed parse invalid v default)
parsed-Returns P parse invalid v default d h = elim (Bool-cases (eqb v [])) [
  | inl unset ↦ rw unset d
  | inr given ↦ elim (Option-cases (parse v)) [
    | inl bad ↦ rw (given, bad) tt
    | inr (a, good) ↦ rw (given, good) (h v a good)
  ]
]

env_int64-Returns :
    (env : Env) (key : Bytes) (default : ℤ)
    → InInt64 default
    → Returns InInt64 (env_int64 env key default)
unfolding env_int64
env_int64-Returns env key default h =
    parsed-Returns InInt64 parse_int invalid_integer (env key) default h
      (λ s a e. parse_int-InInt64 s e)

env_int-Returns :
    (env : Env) (key : Bytes) (default : ℤ)
    → InInt64 default
    → Returns InInt64 (env_int env key default)
unfolding env_int
env_int-Returns env key default h =
    parsed-Returns InInt64 parse_int invalid_integer (env key) default h
      (λ s a e. parse_int-InInt64 s e)

module _ (float : Float64) where
  -- Each duration is above zero, and each integer is one of 64 bits.
  abbrev pub WellTyped : Config float → Type 0
  WellTyped c =
      (pos 0 <ℤ c.read_timeout)
      × (pos 0 <ℤ c.write_timeout)
      × (pos 0 <ℤ c.idle_timeout)
      × (pos 0 <ℤ c.backend_timeout)
      × (pos 0 <ℤ c.queue_timeout)
      × InInt64 c.burst_size
      × InInt64 c.max_concurrent
      × InInt64 c.queue_size
      × InInt64 c.strip_threshold

  positive :
      (parse : Bytes → Option ℤ) (env : Env) (key : Bytes) (default : ℤ)
      → pos 0 <ℤ default
      → Returns (λ d. pos 0 <ℤ d) (at float key (env_duration parse env key default))
  positive parse env key default h =
      Returns-map_err (λ d. pos 0 <ℤ d) (bad_variable key) (env_duration parse env key default)
        (env_duration-Returns parse env key default h)

  in_range :
      (env : Env) (key : Bytes) (default : ℤ)
      → InInt64 default
      → Returns InInt64 (at float key (env_int64 env key default))
  in_range env key default h =
      Returns-map_err InInt64 (bad_variable key) (env_int64 env key default)
        (env_int64-Returns env key default h)

  read_config-Returns :
      (parse : Bytes → Option ℤ) (env : Env) → Returns WellTyped (read_config float parse env)
  unfolding read_config
  read_config-Returns parse env = Returns->>=_any WellTyped _ _ λ insecure.
      Returns->>= (λ d. pos 0 <ℤ d) WellTyped _ _ (positive parse env _ _ (omega arith))
        λ read a.
          Returns->>= (λ d. pos 0 <ℤ d) WellTyped _ _ (positive parse env _ _ (omega arith))
            λ write b.
              Returns->>= (λ d. pos 0 <ℤ d) WellTyped _ _ (positive parse env _ _ (omega arith))
                λ idle c.
                  Returns->>= (λ d. pos 0 <ℤ d) WellTyped _ _ (positive parse env _ _ (omega arith))
                    λ backend d. Returns->>=_any WellTyped _ _ λ rate.
                      Returns->>= InInt64 WellTyped _ _ (in_range env _ _ (omega arith)) λ burst e.
                        Returns->>= InInt64 WellTyped _ _ (in_range env _ _ (omega arith)) λ most f.
                          Returns->>= InInt64 WellTyped _ _
                            (Returns-map_err InInt64 _ _ (env_int-Returns env _ _ (omega arith)))
                            λ size g.
                              Returns->>= (λ d. pos 0 <ℤ d) WellTyped _ _
                                (positive parse env _ _ (omega arith))
                                λ queue h.
                                  Returns->>= InInt64 WellTyped _ _ (in_range env _ _ (omega arith))
                                    λ strip k. (a, b, c, d, h, e, f, g, k)

  load-Returns :
      (parse : Bytes → Option ℤ) (env : Env)
      → Returns (λ c. WellTyped c × Consistent float c) (load float parse env)
  unfolding load
  load-Returns parse env =
      let P = λ (c : Config float). WellTyped c × Consistent float c in
      Returns->>= WellTyped P _ _ (read_config-Returns parse env)
        λ c typed. checked c typed (validate float c) refl
    where
      checked :
          (c : Config float)
          → WellTyped c
          → (v : Result (LoadError float) (Unit {0})) → validate float c ≡ v
          → Returns (λ c. WellTyped c × Consistent float c) (v >>= λ _. ok c)
      checked c typed (ok _) e = (typed, (validate_iff float c).0 e)
      checked c typed (err x) e = tt

  -- A configuration that Load returns keeps all rules between its fields; its timeouts are above zero,
  -- and its integers are of 64 bits.
  pub load_lem :
      (parse : Bytes → Option ℤ) (env : Env) {c : Config float}
      → load float parse env ≡ ok c
      → WellTyped c × Consistent float c
  load_lem parse env h =
      Returns-ok (λ c. WellTyped c × Consistent float c) (load float parse env)
        (load-Returns parse env) h
