-- ===== src/Stripper/Writer.antt =====
-- stripper/stripper.go: stripperWriter and Middleware. The handler behind the middleware is the list
-- of what it does to its response writer. Content types are ASCII: strings.ToLower is taken byte by
-- byte.
pub mod Laws
pub mod Handlers
use mathlib.Core.Option
use peakshield.Prelude.{
  ℕ, Bool, true, false, List, [], ◌∷◌, ◌++◌, Option, none, some, ◌&&◌, map, if◌then◌else◌,
}
use peakshield.Prelude.Int.{ℤ, leb_ℤ}
use peakshield.Prelude.Bytes.{Bytes, bytes, eqb, to_lower}
use peakshield.Http.Header.{Header}
use peakshield.Http.Header
use peakshield.Prelude.Search.{contains}
use peakshield.Http.Writer.{
  ResponseWriter, Op, edit_header, put_status, put_body, apply_all, set_header, write_header, write,
}
use peakshield.Stripper.Html.{strip_html}

pub record StripperWriter : Type 0 where
  pub under : ResponseWriter
  pub buf : Bytes
  pub status : ℕ
  pub header_written : Bool
  pub is_html : Bool
  pub active : Bool

-- strings.Contains(strings.ToLower(contentType), "text/html")
unfoldable pub names_html : Bytes → Bool
unfolding contains to_lower
names_html content_type = contains (map to_lower content_type) (bytes "text/html")

-- WriteHeader
unfoldable pub strip_write_header : ℕ → StripperWriter → StripperWriter
unfolding names_html
strip_write_header code w =
    if w.header_written
    then w
    else if w.active && names_html (Header.get (bytes "Content-Type") w.under.header)
    then record w {
      status = code;
      header_written = true;
      is_html = true;
      under = record (w.under) { header = Header.del (bytes "Content-Length") w.under.header };
    }
    else record w { status = code; header_written = true; under = write_header code w.under }

abbrev pub wrap_writer : ResponseWriter → StripperWriter
wrap_writer w = record {
  under = w;
  buf = [];
  status = 0;
  header_written = false;
  is_html = false;
  active = true;
}

-- what Middleware does when the handler behind it has returned
unfoldable pub finish : StripperWriter → Option ResponseWriter
finish w =
    if w.is_html
    then Option.map (λ out. write out (write_header w.status w.under)) (strip_html w.buf)
    else some w.under

-- `detect` stands for http.DetectContentType.
module _ (detect : Bytes → Bytes) where
  -- what Write does first, if no header was written
  unfoldable pub ensure_header : Bytes → StripperWriter → StripperWriter
  unfolding strip_write_header
  ensure_header b w =
      if w.header_written
      then w
      else strip_write_header 200 (
          if eqb (Header.get (bytes "Content-Type") w.under.header) []
          then record w { under = set_header (bytes "Content-Type") (detect b) w.under }
          else w)

  -- Write
  unfoldable pub strip_write : Bytes → StripperWriter → StripperWriter
  unfolding ensure_header
  strip_write b w =
      let w' = ensure_header b w in
      if w'.is_html then record w' { buf = w'.buf ++ b } else record w' { under = write b w'.under }

  unfoldable pub strip_apply : Op → StripperWriter → StripperWriter
  unfolding strip_write
  strip_apply (edit_header f) w = record w {
    under = record (w.under) { header = f w.under.header };
  }
  strip_apply (put_status status) w = strip_write_header status w
  strip_apply (put_body chunk) w = strip_write chunk w

  unfoldable pub strip_apply_all : List Op → StripperWriter → StripperWriter
  unfolding strip_apply
  strip_apply_all [] w = w
  strip_apply_all (o ∷ os) w = strip_apply_all os (strip_apply o w)

  -- Middleware. `active_reqs` and `strip_threshold` are int64; `next` is given the request's header
  -- and answers with what it does to the writer.
  unfoldable pub middleware :
      ℤ → ℤ → (Header → List Op) → Header → ResponseWriter → Option ResponseWriter
  unfolding apply_all strip_apply_all finish
  middleware active_reqs strip_threshold next request w =
      if leb_ℤ active_reqs strip_threshold
      then some (apply_all (next request) w)
      else finish
          (strip_apply_all (next (Header.del (bytes "Accept-Encoding") request)) (wrap_writer w))
