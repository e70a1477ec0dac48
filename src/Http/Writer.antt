-- ===== src/Http/Writer.antt =====
-- http.ResponseWriter: the headers are fixed by the first WriteHeader, and a Write before it sends
-- status 200. What is written to the header map afterwards is not sent.
use peakshield.Prelude.{
  ℕ, ◌≡◌, refl, sym, ap, ◌∙◌, List, [], ◌∷◌, ◌++◌, append-nil, append_assoc, Option, none, some,
  arith,
}
use peakshield.Prelude.Bytes.{Bytes}
use peakshield.Http.Header.{Header}
use peakshield.Http.Header

pub record Sent : Type 0 where
  pub status : ℕ
  pub headers : Header

pub record ResponseWriter : Type 0 where
  pub header : Header
  pub sent : Option Sent
  pub body : Bytes

abbrev pub fresh_writer : ResponseWriter
fresh_writer = record { header = []; sent = none; body = [] }

unfoldable pub set_header : Bytes → Bytes → ResponseWriter → ResponseWriter
set_header name v w = record w { header = Header.set name v w.header }

unfoldable pub write_header : ℕ → ResponseWriter → ResponseWriter
write_header status w = elim w.sent [
  | none ↦ record w { sent = some (record { status = status; headers = w.header }) }
  | some _ ↦ w
]

unfoldable pub write : Bytes → ResponseWriter → ResponseWriter
unfolding write_header
write b w = let w' = write_header 200 w in record w' { body = w'.body ++ b }

-- What a handler does to its response writer: it changes the header map, sends a status, or writes
-- a chunk of the body.
pub data Op : Type 0 where
  edit_header : (f : Header → Header) → Op
  put_status : (status : ℕ) → Op  -- of at least 100, below which WriteHeader panics
  put_body : (chunk : Bytes) → Op

-- On a plain http.ResponseWriter.
unfoldable pub apply : Op → ResponseWriter → ResponseWriter
unfolding write_header write
apply (edit_header f) w = record w { header = f w.header }
apply (put_status status) w = write_header status w
apply (put_body chunk) w = write chunk w

unfoldable pub apply_all : List Op → ResponseWriter → ResponseWriter
unfolding apply
apply_all [] w = w
apply_all (o ∷ os) w = apply_all os (apply o w)

apply_all-append :
    (os ps : List Op) (w : ResponseWriter) → apply_all (os ++ ps) w ≡ apply_all ps (apply_all os w)
unfolding apply_all
apply_all-append [] ps w = refl
apply_all-append (o ∷ os) ps w = apply_all-append os ps (apply o w)

abbrev pub edits : List (Header → Header) → List Op
edits [] = []
edits (f ∷ fs) = edit_header f ∷ edits fs

abbrev pub writes : List Bytes → List Op
writes [] = []
writes (b ∷ bs) = put_body b ∷ writes bs

abbrev pub joined : List Bytes → Bytes
joined [] = []
joined (b ∷ bs) = b ++ joined bs

-- A handler that edits the headers, sends a status, and then writes its body in chunks.
abbrev pub response : List (Header → Header) → ℕ → List Bytes → List Op
response fs status bs = edits fs ++ put_status status ∷ writes bs

-- The headers after all edits.
abbrev pub edited : List (Header → Header) → Header → Header
edited [] h = h
edited (f ∷ fs) h = edited fs (f h)

pub apply_all-edits :
    (fs : List (Header → Header)) (os : List Op) (w : ResponseWriter)
    → apply_all (edits fs ++ os) w ≡ apply_all os (record w { header = edited fs w.header })
unfolding apply_all
apply_all-edits [] os w = refl
apply_all-edits (f ∷ fs) os w = apply_all-edits fs os (record w { header = f w.header })

-- A status that comes after another is not sent.
pub write_header_sent :
    (status : ℕ) (w : ResponseWriter) {s : Sent} → w.sent ≡ some s → write_header status w ≡ w
unfolding write_header
write_header_sent status w h = ground arith

apply_all-writes :
    (bs : List Bytes) (w : ResponseWriter) {s : Sent}
    → w.sent ≡ some s
    → apply_all (writes bs) w ≡ record w { body = w.body ++ joined bs }
unfolding apply_all
apply_all-writes [] w h = ap (λ b. record w { body = b }) (sym (append-nil w.body))
apply_all-writes (b ∷ bs) w h =
    ap (λ x. apply_all (writes bs) (record x { body = x.body ++ b })) (write_header_sent 200 w h)
    ∙ apply_all-writes bs (record w { body = w.body ++ b }) h
    ∙ ap (λ x. record w { body = x }) (append_assoc w.body b (joined bs))

-- On a writer that has sent nothing, a response sends the edited headers, its status and the body.
pub apply_all-response :
    (fs : List (Header → Header)) (status : ℕ) (bs : List Bytes) (w : ResponseWriter)
    → w.sent ≡ none
    → apply_all (response fs status bs) w ≡ (
        let h = edited fs w.header in
        record {
          header = h;
          sent = some (record { status = status; headers = h });
          body = w.body ++ joined bs;
        })
unfolding apply_all
apply_all-response fs status bs w fresh =
    apply_all-edits fs (put_status status ∷ writes bs) w
    ∙ rw (fresh, write_header) (apply_all-writes bs _ refl)
