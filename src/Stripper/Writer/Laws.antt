-- ===== src/Stripper/Writer/Laws.antt =====
-- stripper/stripper.go: what the client receives through the stripper.
use mathlib.Core.Option
use peakshield.Prelude.{
  ℕ, ◌≡◌, refl, sym, ◌∙◌, ap, Bool, true, false, List, [], ◌∷◌, ◌++◌, some, append_assoc,
  append-nil, Bool-cases, inl, inr,
}
use peakshield.Prelude.Int.{ℤ, leb_ℤ}
use peakshield.Prelude.Bytes.{Bytes, bytes}
use peakshield.Http.Header.{Header}
use peakshield.Http.Header
use peakshield.Http.Writer.{
  ResponseWriter, Op, put_status, apply_all, apply_all-edits, edits, writes, joined, response,
  edited, write_header, write,
}
use peakshield.Stripper.Html.{strip_html}
use peakshield.Stripper.Html.Total.{strip_html_total}
use peakshield.Stripper.Writer.{
  StripperWriter, names_html, strip_write_header, strip_write, strip_apply_all, wrap_writer, finish,
  middleware,
}

finish_html :
    (under : ResponseWriter) (buf : Bytes) (status : ℕ) (header_written active : Bool) (out : Bytes)
    → strip_html buf ≡ some out
    → finish record {
      under = under;
      buf = buf;
      status = status;
      header_written = header_written;
      is_html = true;
      active = active;
    }
      ≡ some (write out (write_header status under))
unfolding finish
finish_html under buf status header_written active out e =
    ap (Option.map (λ out. write out (write_header status under))) e

finish_total : (w : StripperWriter) → (out : ResponseWriter) × (finish w ≡ some out)
unfolding finish
finish_total w = elim (Bool-cases w.is_html) [
  | inl html ↦
      let (out, e) = strip_html_total w.buf in
      (write out (write_header w.status w.under), rw (html, e) refl)
  | inr other ↦ (w.under, rw other refl)
]

-- The writer when the handler has edited its headers.
abbrev pub prepared : List (Header → Header) → ResponseWriter → ResponseWriter
prepared hs w = record w { header = edited hs w.header }

abbrev pub without_length : ResponseWriter → ResponseWriter
without_length w = record w { header = Header.del (bytes "Content-Length") w.header }

module _ (detect : Bytes → Bytes) where
  pub write_html :
      (b : Bytes) (w : StripperWriter)
      → w.header_written ≡ true
      → w.is_html ≡ true
      → strip_write detect b w ≡ record w { buf = w.buf ++ b }
  unfolding strip_write
  write_html b w h k = rw (h, k)

  pub write_other :
      (b : Bytes) (w : StripperWriter)
      → w.header_written ≡ true
      → w.is_html ≡ false
      → strip_write detect b w ≡ record w { under = write b w.under }
  unfolding strip_write
  write_other b w h k = rw (h, k)

  -- Once the header is written, an HTML body is only collected.
  html_writes :
      (bs : List Bytes) (w : StripperWriter)
      → w.header_written ≡ true
      → w.is_html ≡ true
      → strip_apply_all detect (writes bs) w ≡ record w { buf = w.buf ++ joined bs }
  unfolding strip_apply_all
  html_writes [] w h k = ap (λ b. record w { buf = b }) (sym (append-nil w.buf))
  html_writes (b ∷ bs) w h k =
      ap (strip_apply_all detect (writes bs)) (write_html b w h k)
      ∙ html_writes bs (record w { buf = w.buf ++ b }) h k
      ∙ ap (λ x. record w { buf = x }) (append_assoc w.buf b (joined bs))

  -- Any other body goes straight through.
  other_writes :
      (bs : List Bytes) (w : StripperWriter)
      → w.header_written ≡ true
      → w.is_html ≡ false
      → strip_apply_all detect (writes bs) w ≡ record w { under = apply_all (writes bs) w.under }
  unfolding strip_apply_all apply_all
  other_writes [] w h k = refl
  other_writes (b ∷ bs) w h k =
      ap (strip_apply_all detect (writes bs)) (write_other b w h k)
      ∙ other_writes bs (record w { under = write b w.under }) h k

  -- Headers pass to the writer below, and then the rest of the handler goes on.
  header_edits :
      (hs : List (Header → Header)) (os : List Op) (w : StripperWriter)
      → strip_apply_all detect (edits hs ++ os) w
        ≡ strip_apply_all detect os (record w { under = prepared hs w.under })
  unfolding strip_apply_all apply_all
  header_edits [] os w = refl
  header_edits (f ∷ hs) os w =
      header_edits hs os (record w { under = record (w.under) { header = f w.under.header } })

  pub header_html :
      (status : ℕ) (w : ResponseWriter)
      → names_html (Header.get (bytes "Content-Type") w.header) ≡ true
      → strip_write_header status (wrap_writer w) ≡ record (wrap_writer w) {
        under = without_length w;
        status = status;
        header_written = true;
        is_html = true;
      }
  unfolding strip_write_header
  header_html status w html = rw html

  pub header_other :
      (status : ℕ) (w : ResponseWriter)
      → names_html (Header.get (bytes "Content-Type") w.header) ≡ false
      → strip_write_header status (wrap_writer w) ≡ record (wrap_writer w) {
        under = write_header status w;
        status = status;
        header_written = true;
      }
  unfolding strip_write_header
  header_other status w other = rw other

  -- What the wrapped writer holds when the handler is done, for HTML.
  response_html :
      (hs : List (Header → Header)) (status : ℕ) (bs : List Bytes) (w : ResponseWriter)
      → names_html (Header.get (bytes "Content-Type") (prepared hs w).header) ≡ true
      → strip_apply_all detect (response hs status bs) (wrap_writer w) ≡ record (wrap_writer w) {
        under = without_length (prepared hs w);
        buf = joined bs;
        status = status;
        header_written = true;
        is_html = true;
      }
  unfolding strip_apply_all
  response_html hs status bs w html =
      header_edits hs (put_status status ∷ writes bs) (wrap_writer w)
      ∙ ap (strip_apply_all detect (writes bs)) (header_html status (prepared hs w) html)
      ∙ html_writes bs _ refl refl

  -- And for anything else.
  response_other :
      (hs : List (Header → Header)) (status : ℕ) (bs : List Bytes) (w : ResponseWriter)
      → names_html (Header.get (bytes "Content-Type") (prepared hs w).header) ≡ false
      → strip_apply_all detect (response hs status bs) (wrap_writer w) ≡ record (wrap_writer w) {
        under = apply_all (response hs status bs) w;
        status = status;
        header_written = true;
      }
  unfolding strip_apply_all apply_all
  response_other hs status bs w other =
      header_edits hs (put_status status ∷ writes bs) (wrap_writer w)
      ∙ ap (strip_apply_all detect (writes bs)) (header_other status (prepared hs w) other)
      ∙ other_writes bs _ refl refl
      ∙ ap (λ x. record (wrap_writer w) { under = x; status = status; header_written = true })
          (sym (apply_all-edits hs (put_status status ∷ writes bs) w))

  -- Above the threshold the HTML response of a handler that sets headers, sends a status and writes
  -- chunks reaches the client with the handler's status, with its headers but for Content-Length,
  -- and with the stripped body, of all chunks together.
  pub html_stripped :
      (active threshold : ℤ) (next : Header → List Op) (request : Header) (w : ResponseWriter)
      (hs : List (Header → Header)) (status : ℕ) (bs : List Bytes)
      → leb_ℤ active threshold ≡ false
      → next (Header.del (bytes "Accept-Encoding") request) ≡ response hs status bs
      → names_html (Header.get (bytes "Content-Type") (prepared hs w).header) ≡ true
      → (out : Bytes) × (strip_html (joined bs) ≡ some out)
        × (middleware detect active threshold next request w
            ≡ some (write out (write_header status (without_length (prepared hs w)))))
  unfolding middleware finish
  html_stripped active threshold next request w hs status bs busy answers html =
      let (out, stripped) = strip_html_total (joined bs) in
      (
        out,
        stripped,
        rw (busy, answers, response_html hs status bs w html)
            (finish_html (without_length (prepared hs w)) (joined bs) status true true out
              stripped),
      )

  -- Above the threshold any other response of such a handler reaches the client as if the stripper
  -- were not there, but for Accept-Encoding.
  other_untouched :
      (active threshold : ℤ) (next : Header → List Op) (request : Header) (w : ResponseWriter)
      (hs : List (Header → Header)) (status : ℕ) (bs : List Bytes)
      → leb_ℤ active threshold ≡ false
      → next (Header.del (bytes "Accept-Encoding") request) ≡ response hs status bs
      → names_html (Header.get (bytes "Content-Type") (prepared hs w).header) ≡ false
      → middleware detect active threshold next request w
        ≡ some (apply_all (next (Header.del (bytes "Accept-Encoding") request)) w)
  unfolding middleware finish
  other_untouched active threshold next request w hs status bs busy answers other =
      rw (busy, answers, response_other hs status bs w other) refl

  -- The middleware returns for every handler, load and writer.
  pub middleware_total :
      (active threshold : ℤ) (next : Header → List Op) (request : Header) (w : ResponseWriter)
      → (out : ResponseWriter) × (middleware detect active threshold next request w ≡ some out)
  unfolding middleware
  middleware_total active threshold next request w = elim (Bool-cases (leb_ℤ active threshold)) [
    | inl calm ↦ (apply_all (next request) w, rw calm refl)
    | inr busy ↦
        let (out, e) = finish_total (
          strip_apply_all detect (next (Header.del (bytes "Accept-Encoding") request))
            (wrap_writer w)) in
        (out, rw busy e)
  ]
