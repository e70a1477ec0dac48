-- ===== src/Stripper/Writer/Handlers.antt =====
-- stripper/stripper.go: what the stripper makes of any handler, however it mixes its changes of the
-- headers, its statuses and its writes.
use peakshield.Prelude.{
  ℕ, ◌≡◌, refl, sym, ap, ◌∙◌, inl, inr, true, false, Option, some, List, [], ◌∷◌, ◌++◌,
  append_assoc, append-nil, if◌then◌else◌, Bool-cases, Option-cases,
}
use peakshield.Stripper.Writer.Laws.{
  prepared, without_length, write_html, write_other, header_html, header_other,
}
use peakshield.Http.Writer.{
  ResponseWriter, Sent, Op, edit_header, put_status, put_body, apply_all, joined, set_header,
  write_header, write, write_header_sent,
}
use mathlib.Core.Option
use peakshield.Prelude.Int.{ℤ, leb_ℤ}
use peakshield.Prelude.Bytes.{Bytes, bytes, eqb}
use peakshield.Http.Header.{Header}
use peakshield.Http.Header
use peakshield.Stripper.Html.{strip_html}
use peakshield.Stripper.Writer.{
  StripperWriter, names_html, strip_write_header, ensure_header, strip_write, strip_apply,
  strip_apply_all, wrap_writer, finish, middleware,
}

-- The chunks that are written.
abbrev pub bodies : List Op → List Bytes
bodies [] = []
bodies (edit_header f ∷ os) = bodies os
bodies (put_status status ∷ os) = bodies os
bodies (put_body b ∷ os) = b ∷ bodies os

-- The changes of the headers.
abbrev pub header_edits : List Op → List (Header → Header)
header_edits [] = []
header_edits (edit_header f ∷ os) = f ∷ header_edits os
header_edits (put_status status ∷ os) = header_edits os
header_edits (put_body b ∷ os) = header_edits os

-- What the client gets from a handler that begins its response with `status` and goes on with
-- `rest`, by the content type that the headers name at that time. HTML is held back until the handler
-- has returned, and so all its changes of the headers are sent. Anything else is passed on as it comes.
abbrev pub respond : ℕ → List Op → ResponseWriter → Option ResponseWriter
respond status rest w =
    if names_html (Header.get (bytes "Content-Type") w.header)
    then Option.map
        (λ out. write out (write_header status (prepared (header_edits rest) (without_length w))))
        (strip_html (joined (bodies rest)))
    else some (apply_all (put_status status ∷ rest) w)

-- The writer with the content type that is detected, if none is named.
abbrev pub typed : (Bytes → Bytes) → Bytes → ResponseWriter → ResponseWriter
typed detect b w =
    if eqb (Header.get (bytes "Content-Type") w.header) []
    then set_header (bytes "Content-Type") (detect b) w
    else w

-- A response begins with the first status, or with the first write, which stands for status 200 and
-- where no content type is named for the one that is detected.
abbrev pub response_of : (Bytes → Bytes) → List Op → ResponseWriter → Option ResponseWriter
response_of detect [] w = some w
response_of detect (edit_header f ∷ os) w = response_of detect os (record w { header = f w.header })
response_of detect (put_status status ∷ os) w = respond status os w
response_of detect (put_body b ∷ os) w = respond 200 (put_body b ∷ os) (typed detect b w)

write_header-sent :
    (status : ℕ) (w : ResponseWriter) → (s : Sent) × ((write_header status w).sent ≡ some s)
unfolding write_header
write_header-sent status w = elim (Option-cases w.sent) [
  | inl nothing ↦ (record { status = status; headers = w.header }, rw nothing refl)
  | inr (s, already) ↦ (s, rw already refl)
]

write-sent :
    (b : Bytes) (w : ResponseWriter) {s : Sent} → w.sent ≡ some s → (write b w).sent ≡ some s
unfolding write
write-sent b w h = ap (λ x. x.sent) (write_header_sent 200 w h) ∙ h

superfluous :
    (status : ℕ) (w : StripperWriter) → w.header_written ≡ true → strip_write_header status w ≡ w
unfolding strip_write_header
superfluous status w h = rw h refl

module _ (detect : Bytes → Bytes) where
  held_back :
      (os : List Op) (w : StripperWriter)
      → w.header_written ≡ true
      → w.is_html ≡ true
      → strip_apply_all detect os w
        ≡ record w { under = prepared (header_edits os) w.under; buf = w.buf ++ joined (bodies os) }
  unfolding strip_apply_all strip_apply
  held_back [] w h k = ap (λ b. record w { buf = b }) (sym (append-nil w.buf))
  held_back (edit_header f ∷ os) w h k =
      held_back os (record w { under = record (w.under) { header = f w.under.header } }) h k
  held_back (put_status status ∷ os) w h k =
      ap (strip_apply_all detect os) (superfluous status w h) ∙ held_back os w h k
  held_back (put_body b ∷ os) w h k =
      ap (strip_apply_all detect os) (write_html detect b w h k)
      ∙ held_back os (record w { buf = w.buf ++ b }) h k
      ∙ ap (λ x. record w { under = prepared (header_edits os) w.under; buf = x })
          (append_assoc w.buf b (joined (bodies os)))

  passed_on :
      (os : List Op) (w : StripperWriter) {s : Sent}
      → w.header_written ≡ true
      → w.is_html ≡ false
      → w.under.sent ≡ some s
      → strip_apply_all detect os w ≡ record w { under = apply_all os w.under }
  unfolding strip_apply_all strip_apply apply_all
  passed_on [] w h k sent = refl
  passed_on (edit_header f ∷ os) w h k sent =
      passed_on os (record w { under = record (w.under) { header = f w.under.header } }) h k sent
  passed_on (put_status status ∷ os) w h k sent =
      ap (strip_apply_all detect os) (superfluous status w h)
      ∙ passed_on os w h k sent
      ∙ ap (λ x. record w { under = apply_all os x }) (sym (write_header_sent status w.under sent))
  passed_on (put_body b ∷ os) w h k sent =
      ap (strip_apply_all detect os) (write_other detect b w h k)
      ∙ passed_on os (record w { under = write b w.under }) h k (write-sent b w.under sent)

  -- The first status settles how the rest of the handler is taken.
  begun :
      (status : ℕ) (os : List Op) (w : ResponseWriter)
      → finish (strip_apply_all detect os (strip_write_header status (wrap_writer w)))
        ≡ respond status os w
  unfolding finish apply_all
  begun status os w = elim (Bool-cases (names_html (Header.get (bytes "Content-Type") w.header))) [
    | inl html ↦ rw html (
        ap (λ x. finish (strip_apply_all detect os x)) (header_html detect status w html)
        ∙ ap finish (held_back os _ refl refl))
    | inr other ↦ rw other (
        ap (λ x. finish (strip_apply_all detect os x)) (header_other detect status w other)
        ∙ ap finish (passed_on os _ refl refl (write_header-sent status w).1))
  ]

  written :
      (status : ℕ) (w : ResponseWriter)
      → (strip_write_header status (wrap_writer w)).header_written ≡ true
  written status w = elim (Bool-cases (names_html (Header.get (bytes "Content-Type") w.header))) [
    | inl html ↦ ap (λ x. x.header_written) (header_html detect status w html)
    | inr other ↦ ap (λ x. x.header_written) (header_other detect status w other)
  ]

  ensured :
      (b : Bytes) (w : ResponseWriter)
      → ensure_header detect b (wrap_writer w)
        ≡ strip_write_header 200 (wrap_writer (typed detect b w))
  unfolding ensure_header
  ensured b w = elim (Bool-cases (eqb (Header.get (bytes "Content-Type") w.header) [])) [
    | inl unnamed ↦ rw unnamed refl
    | inr named ↦ rw named refl
  ]

  ensured_already :
      (b : Bytes) (w : StripperWriter) → w.header_written ≡ true → ensure_header detect b w ≡ w
  unfolding ensure_header
  ensured_already b w h = rw h refl

  -- A first write is a status 200 and then a write.
  first_write :
      (b : Bytes) (w : ResponseWriter)
      → strip_write detect b (wrap_writer w)
        ≡ strip_write detect b (strip_write_header 200 (wrap_writer (typed detect b w)))
  unfolding strip_write
  first_write b w =
      ap
        (λ x.
          if x.is_html then record x { buf = x.buf ++ b } else record x { under = write b x.under })
        (ensured b w
          ∙ sym (
              ensured_already b (strip_write_header 200 (wrap_writer (typed detect b w)))
                (written 200 (typed detect b w))))

  finished :
      (os : List Op) (w : ResponseWriter)
      → finish (strip_apply_all detect os (wrap_writer w)) ≡ response_of detect os w
  unfolding strip_apply_all strip_apply
  finished [] w = unfold finish in refl
  finished (edit_header f ∷ os) w = finished os (record w { header = f w.header })
  finished (put_status status ∷ os) w = begun status os w
  finished (put_body b ∷ os) w =
      ap (λ x. finish (strip_apply_all detect os x)) (first_write b w)
      ∙ begun 200 (put_body b ∷ os) (typed detect b w)

  -- For every handler, load and writer: up to the threshold the client gets what the handler writes.
  -- Above it, the handler is not offered the client's Accept-Encoding, and its response is decided by
  -- the content type that the headers name when it begins, by a status or by a first write. HTML gets
  -- to the client stripped, of all chunks together, with the first status and with all changes of the
  -- headers but for the Content-Length of that time. Anything else gets there as it was written.
  pub stripper_lem :
      (active threshold : ℤ) (next : Header → List Op) (request : Header) (w : ResponseWriter)
      → middleware detect active threshold next request w ≡ (
          if leb_ℤ active threshold
          then some (apply_all (next request) w)
          else response_of detect (next (Header.del (bytes "Accept-Encoding") request)) w)
  unfolding middleware
  stripper_lem active threshold next request w =
      ap (λ x. if leb_ℤ active threshold then some (apply_all (next request) w) else x)
        (finished (next (Header.del (bytes "Accept-Encoding") request)) w)
