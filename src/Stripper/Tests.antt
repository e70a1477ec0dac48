-- ===== src/Stripper/Tests.antt =====
-- stripper/stripper.go: runs on small pages, and the properties there.
use peakshield.Prelude.{
  ℕ, false, Option, none, arith, ◌*◌, ◌+◌, ◌≤◌, ◌≡◌, refl, List, [], ◌∷◌, some, length,
}
use mathlib.Core.Option
use peakshield.Prelude.Int.{pos}
use peakshield.Prelude.Bytes.{Bytes, bytes}
use peakshield.Http.Header
use peakshield.Http.Header.{Header}
use peakshield.Http.Writer.{
  Op, edit_header, put_status, put_body, set_header, fresh_writer, write, write_header,
}
use peakshield.Stripper.Scan.{index_fold, has_tag_prefix}
use peakshield.Prelude.Search.{index_byte}
use peakshield.Stripper.Html.{notice, strip_html}
use peakshield.Stripper.Html.Tokens.{Strips}
use peakshield.Stripper.Html.Tokens.Complete.{strip_html_lem}
use peakshield.Stripper.Html.Size.{strip_html_size}
use peakshield.Stripper.Pool
use peakshield.Stripper.Pool.Laws.{holds, buffer_private}
use peakshield.Stripper.Writer.{names_html, middleware}
use peakshield.Stripper.Writer.Handlers.{response_of, stripper_lem}

-- A script goes, an image becomes text.
page : strip_html (bytes "a<SCRIPT>x<</script>b<img src=1>c") ≡ some (bytes "ab<span>[img]</span>c")
unfolding strip_html index_byte has_tag_prefix index_fold
page = refl

-- What stands around a script becomes one.
joined : strip_html (bytes "<scri<script></script>pt>") ≡ some (bytes "<script>")
unfolding strip_html index_byte has_tag_prefix index_fold
joined = refl

-- A tag whose name only begins like `<link`.
not_a_link : strip_html (bytes "<linkx>") ≡ some (bytes "<linkx>")
unfolding strip_html index_byte has_tag_prefix
not_a_link = refl

strip_html_lem_example :
    (out : Bytes) × (strip_html (bytes "<body><style>") ≡ some out)
    × Strips false (bytes "<body><style>") out
    × ((other : Bytes) → Strips false (bytes "<body><style>") other → other ≡ out)
strip_html_lem_example = strip_html_lem (bytes "<body><style>")

strip_html_size_example :
    length (bytes "a<span>[img]</span>") ≤ 4 * length (bytes "a<img>") + length notice
unfolding strip_html index_byte has_tag_prefix
strip_html_size_example = strip_html_size (bytes "a<img>") {out = bytes "a<span>[img]</span>"} refl

-- What stands for http.DetectContentType.
abbrev plain_text : Bytes → Bytes
plain_text b = bytes "text/plain; charset=utf-8"

abbrev html_type : List (Header → Header)
html_type = Header.set (bytes "Content-Type") (bytes "text/html") ∷ []

abbrev text_type : List (Header → Header)
text_type = Header.set (bytes "Content-Type") (bytes "text/plain") ∷ []

abbrev chunks : List Bytes
chunks = bytes "<b" ∷ bytes "ody>" ∷ []

-- A handler that writes at once, and names a type and a status when it is too late.
abbrev hasty : List Op
hasty =
    put_body (bytes "<im")
    ∷ edit_header (Header.set (bytes "Content-Type") (bytes "text/plain"))
    ∷ put_status 500
    ∷ put_body (bytes "g>")
    ∷ []

abbrev web_page : Bytes → Bytes
web_page b = bytes "text/html; charset=utf-8"

stripper_lem_example :
    middleware web_page (pos 41) (pos 40) (λ _. hasty) [] fresh_writer
    ≡ response_of web_page hasty fresh_writer
stripper_lem_example = stripper_lem web_page (pos 41) (pos 40) (λ _. hasty) [] fresh_writer

-- Its page is stripped, and sent with status 200 and the type that was named last.
hasty_lem :
    Option.map {B = Bytes × Option ℕ}
      (λ w. (w.body, Option.map (λ s. s.status) w.sent))
      (middleware web_page (pos 41) (pos 40) (λ _. hasty) [] fresh_writer)
    ≡ some (bytes "<span>[img]</span>", some 200)
unfolding strip_html index_byte has_tag_prefix names_html Header.get Header.find Header.set
    Header.assign Header.canonical middleware write_header write set_header
hasty_lem = refl

-- Two requests that have taken a buffer each.
abbrev turn : Pool.System → ℕ → Pool.Event → Pool.System
turn s i e = elim (Pool.step s i e) [ none ↦ s | some t ↦ t ]

abbrev one_request : Pool.System
one_request = turn Pool.init 0 (Pool.begin none)

abbrev two_requests : Pool.System
two_requests = turn one_request 1 (Pool.begin none)

two_requests-Reach : Pool.Reach 2 two_requests
unfolding Pool.init Pool.step
two_requests-Reach =
    Pool.later 1 (Pool.begin none) (omega arith) refl
      (Pool.later 0 (Pool.begin none) (omega arith) refl (Pool.start refl))

abbrev first_writes : Pool.System
first_writes = turn two_requests 0 (Pool.chunk (bytes "<p>"))

buffer_private_example :
    (holds 1 (two_requests.pc 0) ≡ 0)
    × (holds 1 (first_writes.pc 0) ≡ 0)
    × (first_writes.pool.text 1 ≡ two_requests.pool.text 1)
unfolding Pool.init Pool.step
buffer_private_example =
    buffer_private 0 1 1 (Pool.chunk (bytes "<p>")) two_requests-Reach (omega arith) (omega arith)
      (omega arith) refl (omega arith)
