-- ===== src/Proxy/Escape.antt =====
-- The escapes of json.Marshal in a string, as writeError uses them: ASCII characters, the two line
-- separators, and U+FFFD for bytes that are not UTF-8.
use peakshield.Prelude.{
  ℕ, zero, suc, ◌+◌, ◌-◌, ◌/◌, ◌%◌, ◌||◌, ◌&&◌, Bool, Option, none, some, [], ◌∷◌, ◌++◌, ltb, leb,
  ◌==◌, if◌then◌else◌,
}
use peakshield.Prelude.Bytes.{Bytes, bytes}

abbrev pub hex_digit : ℕ → ℕ
hex_digit d = if ltb d 10 then b'0' + d else b'a' + d - 10

-- json's escapes of one ASCII character
abbrev pub escape : ℕ → Bytes
escape c =
    if c == b'"' || c == b'\\'
    then b'\\' ∷ c ∷ []
    else if c == b'\n'
    then bytes "\\n"
    else if c == b'\r'
    then bytes "\\r"
    else if c == b'\t'
    then bytes "\\t"
    else if ltb c 32 || (c == b'<' || (c == b'>' || c == b'&'))
    then bytes "\\u00" ++ hex_digit (c / 16) ∷ hex_digit (c % 16) ∷ []
    else c ∷ []

abbrev pub within : ℕ → ℕ → ℕ → Bool
within low high c = leb low c && leb c high

-- a byte that continues a character of UTF-8
abbrev pub is_tail : ℕ → Bool
is_tail = within 128 191

-- The range of the byte behind the first byte `c` of a character.
abbrev pub second_byte : ℕ → ℕ → Bool
second_byte c d =
    if c == 224
    then within 160 191 d
    else if c == 237
    then within 128 159 d
    else if c == 240
    then within 144 191 d
    else if c == 244
    then within 128 143 d
    else is_tail d

-- How many bytes come behind the first one of a character that is not ASCII, as utf8.DecodeRune
-- reads it; `none` where the bytes are not UTF-8.
abbrev pub rune_tail : ℕ → Bytes → Option ℕ
rune_tail c [] = none
rune_tail c (d ∷ []) = if within 194 223 c && is_tail d then some 1 else none
rune_tail c (d ∷ e ∷ []) =
    if within 194 223 c && is_tail d
    then some 1
    else if within 224 239 c && second_byte c d && is_tail e
    then some 2
    else none
rune_tail c (d ∷ e ∷ f ∷ s) =
    if within 194 223 c && is_tail d
    then some 1
    else if within 224 239 c && second_byte c d && is_tail e
    then some 2
    else if within 240 244 c && second_byte c d && is_tail e && is_tail f
    then some 3
    else none

-- U+2028 and U+2029, and which of the two
abbrev pub line_separator : ℕ → Bytes → Option ℕ
line_separator c (d ∷ e ∷ s) =
    if c == 226 && d == 128 && (e == 168 || e == 169) then some (e - 160) else none
line_separator c _ = none

-- What to do with the bytes of a character that come next: to write them, or to pass them over.
pub data Tail : Type 0 where
  copying passing : (to_come : ℕ) → Tail

-- What is written at a byte that is not ASCII, and what to do with the bytes behind it.
abbrev pub encode_rune : ℕ → Bytes → Bytes × Tail
encode_rune c s = elim (rune_tail c s) [
  | none ↦ (bytes "\\ufffd", copying 0)
  | some n ↦ elim (line_separator c s) [
    | none ↦ (c ∷ [], copying n)
    | some d ↦ (bytes "\\u202" ++ hex_digit d ∷ [], passing n)
  ]
]

abbrev pub escaped_from : Tail → Bytes → Bytes
escaped_from t [] = []
escaped_from (copying (suc n)) (c ∷ s) = c ∷ escaped_from (copying n) s
escaped_from (passing (suc n)) (c ∷ s) = escaped_from (passing n) s
escaped_from (copying zero) (c ∷ s) =
    if ltb c 128
    then escape c ++ escaped_from (copying 0) s
    else (encode_rune c s).0 ++ escaped_from (encode_rune c s).1 s
escaped_from (passing zero) (c ∷ s) =
    if ltb c 128
    then escape c ++ escaped_from (copying 0) s
    else (encode_rune c s).0 ++ escaped_from (encode_rune c s).1 s

-- a text, escaped
abbrev pub escaped : Bytes → Bytes
escaped s = escaped_from (copying 0) s
