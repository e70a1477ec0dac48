-- ===== src/Proxy/Failure.antt =====
-- proxy/proxy.go: ErrorResponse and writeError. The branch for a failure of json.Marshal is left out:
-- it does not fail on strings and numbers.
pub mod Json
use peakshield.Prelude.{
  ℕ, ◌+◌, ◌-◌, ◌/◌, ◌%◌, ◌||◌, List, [], ◌∷◌, ◌++◌, ltb, leb, ◌==◌, ◌&&◌, Bool, Option, none, some,
  zero, suc, if◌then◌else◌,
}
use peakshield.Prelude.Int.{pos}
use peakshield.Prelude.Bytes.{Bytes, bytes, eqb, decimal}
use peakshield.Proxy.Escape.{escaped}
use peakshield.Http.Header.{Header}
use peakshield.Http.Header
use peakshield.Http.Writer.{Op, response}

pub record ErrorResponse : Type 0 where
  pub error : Bytes
  pub code : ℕ
  pub message : Bytes
  pub backend : Bytes

abbrev quoted : Bytes → Bytes
quoted s = b'"' ∷ escaped s ++ b'"' ∷ []

-- json.Marshal
unfoldable pub marshal : ErrorResponse → Bytes
marshal e =
    bytes "{\"error\":"
    ++ quoted e.error
    ++ bytes ",\"code\":"
    ++ decimal (pos e.code)
    ++ bytes ",\"message\":"
    ++ quoted e.message
    ++ (if eqb e.backend [] then [] else bytes ",\"backend\":" ++ quoted e.backend)
    ++ bytes "}"

-- http.StatusText, at the two statuses that writeError is called with
unfoldable pub status_text : ℕ → Bytes
status_text code =
    if code == 502 then bytes "Bad Gateway" else if code == 504 then bytes "Gateway Timeout" else []

-- the fields that writeError sets
abbrev pub failure_fields : Bytes → List (Header → Header)
failure_fields err_type =
    Header.set (bytes "Content-Type") (bytes "application/json; charset=utf-8")
    ∷ Header.set (bytes "X-PeakShield-Error") err_type
    ∷ Header.set (bytes "X-Content-Type-Options") (bytes "nosniff")
    ∷ []

unfoldable pub failure_body : Bytes → ℕ → Bytes → Bytes
unfolding marshal status_text
failure_body target_url status err_type =
    marshal
      record { error = err_type; code = status; message = status_text status; backend = target_url }

-- writeError, at cfg.TargetURL
unfoldable pub write_error : Bytes → ℕ → Bytes → List Op
unfolding failure_body
write_error target_url status err_type =
    response (failure_fields err_type) status (failure_body target_url status err_type ∷ [])
