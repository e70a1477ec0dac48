-- ===== src/Proxy/Failure/Json.antt =====
-- proxy/proxy.go: the body of writeError is JSON, and says what it was made from.
use peakshield.Prelude.{
  ℕ, zero, suc, ◌+◌, ◌-◌, ◌*◌, ◌/◌, ◌%◌, ◌<◌, ◌≡◌, refl, sym, ap, ◌∙◌, true, false, ◌&&◌, ◌||◌,
  Option, none, some, [], ◌∷◌, ◌++◌, append_assoc, arith, ◌⊎◌, ltb, leb, ◌==◌, if◌then◌else◌,
  Bool-cases, inl, inr,
}
use peakshield.Prelude.Int.{pos}
use peakshield.Prelude.Bytes.{Bytes, bytes, eqb, eqb_iff, decimal, decimal_digits}
use peakshield.Config.Parse.{digits_from}
use peakshield.Config.Parse.Print.{digits_from-decimal_digits}
use peakshield.Proxy.Escape.{hex_digit, escape, escaped}
use peakshield.Proxy.Failure.{ErrorResponse, marshal, status_text, failure_body}

-- Where a reader of a JSON string stands: in the text, behind a backslash, or in the four digits of
-- `\u`, of which there are some to come.
data Reader : Type 0 where
  plain : Reader
  escaping : Reader
  in_hex : (to_come : ℕ) → (value : ℕ) → Reader

abbrev hex_value : ℕ → ℕ
hex_value c = if leb c b'9' then c - b'0' else c - b'a' + 10

abbrev unescape : ℕ → ℕ
unescape c =
    if c == b'n' then b'\n' else if c == b'r' then b'\r' else if c == b't' then b'\t' else c

abbrev and_then : ℕ → Option (Bytes × Bytes) → Option (Bytes × Bytes)
and_then c none = none
and_then c (some (s, rest)) = some (c ∷ s, rest)

-- The text up to the closing quote, and what is behind it.
read_text : Reader → Bytes → Option (Bytes × Bytes)
read_text r [] = none
read_text plain (c ∷ s) = elim (c == b'"') [
  | true ↦ some ([], s)
  | false ↦ elim (c == b'\\') [
    | true ↦ read_text escaping s
    | false ↦ and_then c (read_text plain s)
  ]
]
read_text escaping (c ∷ s) = elim (c == b'u') [
  | true ↦ read_text (in_hex 3 0) s
  | false ↦ and_then (unescape c) (read_text plain s)
]
read_text (in_hex zero v) (c ∷ s) = and_then (v * 16 + hex_value c) (read_text plain s)
read_text (in_hex (suc k) v) (c ∷ s) = read_text (in_hex k (v * 16 + hex_value c)) s

read_number : ℕ → Bytes → ℕ × Bytes
read_number n [] = (n, [])
read_number n (c ∷ s) = elim (leb b'0' c && leb c b'9') [
  | true ↦ read_number (n * 10 + (c - b'0')) s
  | false ↦ (n, c ∷ s)
]

expect : Bytes → Bytes → Option Bytes
expect [] s = some s
expect (p ∷ ps) [] = none
expect (p ∷ ps) (c ∷ s) = let rest = expect ps s in if c == p then rest else none

hex_round :
    (c : ℕ) → c < 256 → hex_value (hex_digit (c / 16)) * 16 + hex_value (hex_digit (c % 16)) ≡ c
hex_round c h = ground arith

-- What is escaped is read back.
read_text-escape :
    (c : ℕ) (s : Bytes) → read_text plain (escape c ++ s) ≡ and_then c (read_text plain s)
unfolding read_text
read_text-escape c s = elim (Bool-cases (c == b'"' || c == b'\\')) [
  | inl itself ↦ ground arith
  | inr other ↦ elim (Bool-cases (ltb c 32 || (c == b'<' || (c == b'>' || c == b'&')))) [
    | inl coded ↦ ground (arith, hex_round c (ground (arith, coded)))
    | inr direct ↦ ground arith
  ]
]

-- Every byte is ASCII.
abbrev pub Ascii : Bytes → Type 0
Ascii [] = Unit {0}
Ascii (c ∷ s) = (c < 128) × Ascii s

escaped-Ascii : (c : ℕ) (s : Bytes) → c < 128 → escaped (c ∷ s) ≡ escape c ++ escaped s
escaped-Ascii c s h = ground arith

read_text-escaped :
    (s rest : Bytes) → Ascii s → read_text plain (escaped s ++ b'"' ∷ rest) ≡ some (s, rest)
read_text-escaped [] rest h = unfold read_text in refl
read_text-escaped (c ∷ s) rest (low, h) =
    ap (λ x. read_text plain (x ++ b'"' ∷ rest)) (escaped-Ascii c s low)
    ∙ ap (read_text plain) (append_assoc (escape c) (escaped s) (b'"' ∷ rest))
    ∙ read_text-escape c (escaped s ++ b'"' ∷ rest)
    ∙ ap (and_then c) (read_text-escaped s rest h)

read_number-digits :
    (n m : ℕ) (s rest : Bytes)
    → digits_from n s ≡ some m
    → read_number n (s ++ b',' ∷ rest) ≡ (m, b',' ∷ rest)
unfolding digits_from read_number
read_number-digits n m [] rest h = ground arith
read_number-digits n m (c ∷ s) rest h = elim (Bool-cases (leb b'0' c && leb c b'9')) [
  | inl digit ↦
      rw (digit, read_number) (read_number-digits (n * 10 + (c - b'0')) m s rest (rw digit at h))
  | inr other ↦ absurd (ground (arith, h, other))
]

read_number-decimal :
    (n : ℕ) (rest : Bytes) → read_number 0 (decimal (pos n) ++ b',' ∷ rest) ≡ (n, b',' ∷ rest)
unfolding decimal
read_number-decimal n rest =
    read_number-digits 0 n (decimal_digits (suc n) n) rest
      (digits_from-decimal_digits (suc n) n (omega arith))

expect-append : (p s : Bytes) → expect p (p ++ s) ≡ some s
unfolding expect
expect-append [] s = refl
expect-append (c ∷ p) s = ground (arith, expect-append p s)

infixl 5 ◌>>=◌
abbrev ◌>>=◌ {ℓ κ} : {A : Type ℓ} {B : Type κ} → Option A → (A → Option B) → Option B
none >>= f = none
some a >>= f = f a

-- The value of the last field, which is left out where it is empty, and the closing brace.
read_backend : Bytes → Option Bytes
unfolding expect
read_backend s = elim (expect (bytes "}") s) [
  | some rest ↦ some []
  | none ↦ do
    s ← expect (bytes ",\"backend\":\"") s
    (backend, s) ← read_text plain s
    s ← expect (bytes "}") s
    some backend
]

-- A reader of the JSON text of an ErrorResponse.
pub unmarshal : Bytes → Option ErrorResponse
unfolding expect
unmarshal s = do
  s ← expect (bytes "{\"error\":\"") s
  (error, s) ← read_text plain s
  s ← expect (bytes ",\"code\":") s
  let (code, s) = read_number 0 s
  s ← expect (bytes ",\"message\":\"") s
  (message, s) ← read_text plain s
  backend ← read_backend s
  some (record { error = error; code = code; message = message; backend = backend })

abbrev backend_part : Bytes → Bytes
backend_part backend =
    if eqb backend []
    then bytes "}"
    else bytes ",\"backend\":\"" ++ (escaped backend ++ b'"' ∷ bytes "}")

-- The text with its parts bracketed to the right.
marshal_parts :
    (e : ErrorResponse)
    → marshal e
      ≡ bytes "{\"error\":\""
        ++ (escaped e.error
            ++ b'"'
              ∷ (bytes ",\"code\":"
                  ++ (decimal (pos e.code)
                      ++ b','
                        ∷ (bytes "\"message\":\""
                            ++ (escaped e.message ++ b'"' ∷ backend_part e.backend)))))
unfolding marshal
marshal_parts e = elim (Bool-cases (eqb e.backend [])) [
  | inl absent ↦ rw absent (simp append_assoc)
  | inr present ↦ rw present (simp append_assoc)
]

read_backend_part :
    (backend : Bytes) → Ascii backend → read_backend (backend_part backend) ≡ some backend
unfolding read_backend
read_backend_part backend h = elim (Bool-cases (eqb backend [])) [
  | inl absent ↦ rw absent (ap some (sym ((eqb_iff backend []).0 absent)))
  | inr present ↦ rw (present, read_text-escaped backend (bytes "}") h) refl
]

-- An error page's JSON is read back.
unmarshal-marshal :
    (e : ErrorResponse)
    → Ascii e.error
    → Ascii e.message
    → Ascii e.backend
    → unmarshal (marshal e) ≡ some e
unfolding unmarshal
unmarshal-marshal e error message backend =
    ap unmarshal (marshal_parts e)
    ∙ rw
        (
          read_text-escaped e.error _ error,
          read_number-decimal e.code _,
          read_text-escaped e.message _ message,
          read_backend_part e.backend backend,
        )
        refl

status_text-Ascii : (status : ℕ) → (status ≡ 502) ⊎ (status ≡ 504) → Ascii (status_text status)
unfolding status_text
status_text-Ascii status (inl e) = rw e (omega arith)
status_text-Ascii status (inr e) = rw e (omega arith)

-- The body of a failure with status 502 or 504, the two that writeError is called with, is JSON that
-- says what happened: for a type of the error and a URL of the backend that are ASCII, a reader of
-- the four fields finds exactly these, the status and its text. No character of the URL can end its
-- string early or change the fields.
pub unmarshal-failure_body :
    (target_url err_type : Bytes) (status : ℕ)
    → (status ≡ 502) ⊎ (status ≡ 504)
    → Ascii err_type
    → Ascii target_url
    → unmarshal (failure_body target_url status err_type)
      ≡ some (record {
        error = err_type;
        code = status;
        message = status_text status;
        backend = target_url;
      })
unfolding failure_body
unmarshal-failure_body target_url err_type status known error target =
    unmarshal-marshal _ error (status_text-Ascii status known) target
