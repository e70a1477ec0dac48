-- ===== src/Proxy/Address.antt =====
-- proxy/proxy.go: ExtractIP, with net.SplitHostPort.
use peakshield.Prelude.{
  ℕ, ◌+◌, ◌≡◌, refl, ap, ◌∙◌, Bool, false, ◌||◌, [], ◌∷◌, ◌++◌, append_assoc, Option, none, some,
  ◌==◌, if◌then◌else◌, length, length-append, take, drop, arith,
}
use peakshield.Prelude.Bytes.{Bytes}
use peakshield.Prelude.Search.{
  Lacks, index_byte, index_byte-append, last_index_byte, last_index_byte-append, has_byte,
  has_byte-append, has_byte-Lacks, take_before, drop_after,
}

-- the last two tests of net.SplitHostPort, from the positions `j` and `k` on, and its result; `i` is
-- the position of the last colon
unfoldable pub checked_host : Bytes → ℕ → ℕ → ℕ → Bytes → Option (Bytes × Bytes)
checked_host host j k i s =
    if has_byte b'[' (drop j s) || has_byte b']' (drop k s)
    then none
    else some (host, drop (i + 1) s)

-- an address that begins with a bracket: the first closing bracket stands before the last colon
unfoldable pub split_bracketed : ℕ → Bytes → Option (Bytes × Bytes)
unfolding checked_host
split_bracketed i s = elim (index_byte b']' s) [
  | none ↦ none
  | some end ↦ if end + 1 == i then checked_host (drop 1 (take end s)) 1 (end + 1) i s else none
]

-- any other address: one colon
unfoldable pub split_plain : ℕ → Bytes → Option (Bytes × Bytes)
unfolding checked_host
split_plain i s = if has_byte b':' (take i s) then none else checked_host (take i s) 0 0 i s

abbrev is_bracketed : Bytes → Bool
is_bracketed [] = false
is_bracketed (c ∷ _) = c == b'['

-- net.SplitHostPort, with `none` for an error
unfoldable pub split_host_port : Bytes → Option (Bytes × Bytes)
split_host_port s = elim (last_index_byte b':' s) [
  | none ↦ none
  | some i ↦ if is_bracketed s then split_bracketed i s else split_plain i s
]

-- ExtractIP
unfoldable pub extract_ip : Bytes → Bytes
extract_ip remote_addr = elim (split_host_port remote_addr) [
  | none ↦ remote_addr
  | some (ip, _) ↦ ip
]

-- No colon and no bracket: an IPv4 address, a host's name, or a port.
abbrev Plain : Bytes → Type 0
Plain s = Lacks b':' s × Lacks b'[' s × Lacks b']' s

split_plain_lem :
    (host port : Bytes)
    → Plain host
    → Plain port
    → split_plain (length host) (host ++ b':' ∷ port) ≡ some (host, port)
unfolding split_plain
split_plain_lem host port (hc, ho, he) (pc, po, pe) = ground (
  arith,
  take_before host (b':' ∷ port),
  drop_after host b':' port,
  has_byte-Lacks b':' host hc,
  has_byte-Lacks b'[' host ho,
  has_byte-Lacks b']' host he,
  has_byte-Lacks b'[' port po,
  has_byte-Lacks b']' port pe,
  has_byte-append b'[' host (b':' ∷ port),
  has_byte-append b']' host (b':' ∷ port),
)

not_bracketed : (host port : Bytes) → Lacks b'[' host → is_bracketed (host ++ b':' ∷ port) ≡ false
not_bracketed [] port h = refl
not_bracketed (c ∷ host) port (ne, h) = ground arith

split_host_port-Plain :
    (host port : Bytes)
    → Plain host
    → Plain port
    → split_host_port (host ++ b':' ∷ port) ≡ some (host, port)
unfolding split_host_port
split_host_port-Plain host port h p = ground (
  arith,
  last_index_byte-append b':' host port p.0,
  not_bracketed host port h.1,
  split_plain_lem host port h p,
)

-- An IPv4 address or a name with a port gives the address, without the port.
extract_ip-Plain :
    (host port : Bytes) → Plain host → Plain port → extract_ip (host ++ b':' ∷ port) ≡ host
unfolding extract_ip
extract_ip-Plain host port h p = ground (arith, split_host_port-Plain host port h p)

-- What stands in brackets: an IPv6 address. It may have colons.
abbrev bracketed : Bytes → Bytes
bracketed host = b'[' ∷ host ++ b']' ∷ []

split_bracketed_at :
    (i end : ℕ) (s host port : Bytes)
    → index_byte b']' s ≡ some end
    → end + 1 ≡ i
    → take end s ≡ b'[' ∷ host
    → has_byte b'[' (drop 1 s) ≡ false
    → has_byte b']' (drop (end + 1) s) ≡ false
    → drop (i + 1) s ≡ port
    → split_bracketed i s ≡ some (host, port)
unfolding split_bracketed
split_bracketed_at i end s host port at before taken no_open no_close rest = ground arith

reassociate :
    (host port : Bytes) → bracketed host ++ b':' ∷ port ≡ (b'[' ∷ host) ++ b']' ∷ b':' ∷ port
reassociate host port = ap (◌∷◌ b'[') (append_assoc host (b']' ∷ []) (b':' ∷ port))

split_bracketed_lem :
    (host port : Bytes)
    → Lacks b'[' host
    → Lacks b']' host
    → Plain port
    → split_bracketed (length (bracketed host)) (bracketed host ++ b':' ∷ port) ≡ some (host, port)
split_bracketed_lem host port ho he (pc, po, pe) =
    split_bracketed_at (length (bracketed host)) (length (b'[' ∷ host)) _ host port
      (ap (index_byte b']') (reassociate host port)
        ∙ index_byte-append b']' (b'[' ∷ host) (b']' ∷ b':' ∷ port) (omega arith, he)
            (unfold index_byte in ground arith))
      (omega (arith, length-append host (b']' ∷ [])))
      (ap (take (length (b'[' ∷ host))) (reassociate host port)
        ∙ take_before (b'[' ∷ host) (b']' ∷ b':' ∷ port))
      (ground (
        arith,
        has_byte-append b'[' (host ++ b']' ∷ []) (b':' ∷ port),
        has_byte-append b'[' host (b']' ∷ []),
        has_byte-Lacks b'[' host ho,
        has_byte-Lacks b'[' port po,
      ))
      (ap (λ x. has_byte b']' (drop (length (b'[' ∷ host) + 1) x)) (reassociate host port)
        ∙ rw (drop_after (b'[' ∷ host) b']' (b':' ∷ port))
            (has_byte-Lacks b']' (b':' ∷ port) (omega arith, pe)))
      (drop_after (bracketed host) b':' port)

split_host_port-bracketed :
    (host port : Bytes)
    → Lacks b'[' host
    → Lacks b']' host
    → Plain port
    → split_host_port (bracketed host ++ b':' ∷ port) ≡ some (host, port)
unfolding split_host_port
split_host_port-bracketed host port ho he p = ground (
  arith,
  last_index_byte-append b':' (bracketed host) port p.0,
  split_bracketed_lem host port ho he p,
)

-- An IPv6 address in brackets, with a port, gives the address without both.
extract_ip-bracketed :
    (host port : Bytes)
    → Lacks b'[' host
    → Lacks b']' host
    → Plain port
    → extract_ip (bracketed host ++ b':' ∷ port) ≡ host
unfolding extract_ip
extract_ip-bracketed host port ho he p = ground (arith, split_host_port-bracketed host port ho he p)
