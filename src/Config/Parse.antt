-- ===== src/Config/Parse.antt =====
-- config/config.go: envString, envDuration, envFloat64, envInt64, envInt and envBool, with what they
-- use of strconv. An environment is what os.Getenv answers: empty for a variable that is unset.
pub mod Print
use peakshield.Prelude.{
  ℕ, ◌+◌, ◌-◌, ◌*◌, ◌^◌, Bool, true, false, ◌&&◌, ◌||◌, List, [], ◌∷◌, Option, none, some, ltb, leb,
  ◌==◌, if◌then◌else◌,
}
use peakshield.Prelude.Int.{ℤ, pos, sub_ℕ, leb_ℤ}
use peakshield.Prelude.Bytes.{Bytes, bytes, eqb}
use peakshield.Prelude.Float.{Float64}
use peakshield.Prelude.Result.{Result, ok, err}

abbrev pub Env : Type 0
Env = Bytes → Bytes

pub data ValueError : Type 0 where
  invalid_duration : (value : Bytes) → ValueError
  duration_not_positive : (value : Bytes) → ValueError
  invalid_float : (value : Bytes) → ValueError
  invalid_integer : (value : Bytes) → ValueError
  invalid_boolean : (value : Bytes) → ValueError

-- the decimal digits of strconv, at least one
unfoldable pub digits_from : ℕ → Bytes → Option ℕ
digits_from n [] = some n
digits_from n (c ∷ s) =
    let rest = digits_from (n * 10 + (c - b'0')) s in
    if leb b'0' c && leb c b'9' then rest else none

unfoldable pub parse_digits : Bytes → Option ℕ
unfolding digits_from
parse_digits [] = none
parse_digits (c ∷ s) = digits_from 0 (c ∷ s)

-- a number with its sign, in the range of int64
abbrev pub signed_in_range : Bool → Option ℕ → Option ℤ
signed_in_range negative none = none
signed_in_range true (some n) = if leb n (2 ^ 63) then some (sub_ℕ 0 n) else none
signed_in_range false (some n) = if ltb n (2 ^ 63) then some (pos n) else none

-- strconv.ParseInt(s, 10, 64), and strconv.Atoi where int has 64 bits
unfoldable pub parse_int : Bytes → Option ℤ
unfolding parse_digits
parse_int [] = none
parse_int (c ∷ s) =
    if c == b'-'
    then signed_in_range true (parse_digits s)
    else if c == b'+'
    then signed_in_range false (parse_digits s)
    else signed_in_range false (parse_digits (c ∷ s))

abbrev member : Bytes → List Bytes → Bool
member s [] = false
member s (x ∷ xs) = eqb s x || member s xs

-- strconv.ParseBool
unfoldable pub parse_bool : Bytes → Option Bool
parse_bool s =
    if member s
      (bytes "1" ∷ bytes "t" ∷ bytes "T" ∷ bytes "TRUE" ∷ bytes "true" ∷ bytes "True" ∷ [])
    then some true
    else if member s
        (bytes "0" ∷ bytes "f" ∷ bytes "F" ∷ bytes "FALSE" ∷ bytes "false" ∷ bytes "False" ∷ [])
    then some false
    else none

unfoldable pub env_string : Env → Bytes → Bytes → Bytes
env_string env key default = let v = env key in if eqb v [] then default else v

-- What envFloat64, envInt64, envInt and envBool have in common.
abbrev pub parsed {ℓ} :
    {A : Type ℓ} → (Bytes → Option A) → (Bytes → ValueError) → Bytes → A → Result ValueError A
parsed parse invalid v default =
    if eqb v [] then ok default else elim (parse v) [ none ↦ err (invalid v) | some a ↦ ok a ]

unfoldable pub env_int64 : Env → Bytes → ℤ → Result ValueError ℤ
unfolding parse_int
env_int64 env key default = parsed parse_int invalid_integer (env key) default

unfoldable pub env_int : Env → Bytes → ℤ → Result ValueError ℤ
unfolding parse_int
env_int env key default = parsed parse_int invalid_integer (env key) default

unfoldable pub env_bool : Env → Bytes → Bool → Result ValueError Bool
unfolding parse_bool
env_bool env key default = parsed parse_bool invalid_boolean (env key) default

unfoldable pub env_float64 :
    (float : Float64) → Env → Bytes → Float64.Real float → Result ValueError (Float64.Real float)
env_float64 float env key default = parsed (Float64.parse float) invalid_float (env key) default

-- `parse_duration` stands for time.ParseDuration, in nanoseconds.
unfoldable pub env_duration : (Bytes → Option ℤ) → Env → Bytes → ℤ → Result ValueError ℤ
env_duration parse_duration env key default =
    let v = env key in
    if eqb v [] then ok default else elim (parse_duration v) [
      | none ↦ err (invalid_duration v)
      | some d ↦ if leb_ℤ d (pos 0) then err (duration_not_positive v) else ok d
    ]
