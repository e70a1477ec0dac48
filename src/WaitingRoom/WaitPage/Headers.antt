-- ===== src/WaitingRoom/WaitPage/Headers.antt =====
-- waitingroom/waitingroom.go: what a client reads off the wait page.
use peakshield.Prelude.{◌≡◌, refl, ◌∙◌, false, none, some, ◌++◌}
use peakshield.Prelude.Int.{ℤ, pos}
use peakshield.Prelude.Bytes.{Bytes, bytes, decimal, eqb}
use peakshield.Http.Header
use peakshield.Http.Header.{Header, canonical, get-set_same, get-set_other}
use peakshield.Http.Writer.{ResponseWriter, Sent, set_header, write_header, write}
use peakshield.WaitingRoom.Goroutine.{queue_full_page, timeout_page}
use peakshield.WaitingRoom.WaitPage.{
  WaitMode, mode_queue_full, mode_timeout, page_body, serve_wait_page, set_retry_after, render,
}

-- The response that went out: unavailable for now, to be tried again after `wait` seconds, not to be
-- cached, and marked as a page of the queue.
abbrev pub IsWaitPage : Bytes → Bytes → ResponseWriter → Type 0
IsWaitPage wait page w =
    (s : Sent) × (w.sent ≡ some s)
    × (s.status ≡ 503)
    × (Header.get (bytes "Retry-After") s.headers ≡ wait)
    × (Header.get (bytes "Cache-Control") s.headers
        ≡ bytes "no-store, no-cache, must-revalidate, max-age=0")
    × (Header.get (bytes "X-PeakShield-Queue") s.headers ≡ bytes "1")
    × (w.body ≡ page)

skip :
    (name other : Bytes) (v : Bytes) (h : Header) {x : Bytes}
    → eqb (canonical name) (canonical other) ≡ false
    → Header.get other h ≡ x
    → Header.get other (Header.set name v h) ≡ x
skip name other v h ne e = get-set_other name other v h ne ∙ e

-- The headers that serveWaitPage sets.
page_headers : Header → Header
page_headers h = Header.set (bytes "X-Robots-Tag") (bytes "noindex, nofollow") (
    Header.set (bytes "X-PeakShield-Queue") (bytes "1") (
      Header.set (bytes "Pragma") (bytes "no-cache") (
        Header.set (bytes "Cache-Control") (bytes "no-store, no-cache, must-revalidate, max-age=0")
          (Header.set (bytes "Content-Type") (bytes "text/html; charset=utf-8") h))))

page_headers-retry :
    (v : Bytes) (h : Header)
    → Header.get (bytes "Retry-After") (page_headers (Header.set (bytes "Retry-After") v h)) ≡ v
unfolding page_headers canonical
page_headers-retry v h =
    let name = bytes "Retry-After" in
    skip (bytes "X-Robots-Tag") name _ _ refl (
      skip (bytes "X-PeakShield-Queue") name _ _ refl (
        skip (bytes "Pragma") name _ _ refl (
          skip (bytes "Cache-Control") name _ _ refl
            (skip (bytes "Content-Type") name _ _ refl (get-set_same name v h)))))

page_headers-cache :
    (h : Header)
    → Header.get (bytes "Cache-Control") (page_headers h)
      ≡ bytes "no-store, no-cache, must-revalidate, max-age=0"
unfolding page_headers canonical
page_headers-cache h =
    let name = bytes "Cache-Control" in
    skip (bytes "X-Robots-Tag") name _ _ refl (
      skip (bytes "X-PeakShield-Queue") name _ _ refl
        (skip (bytes "Pragma") name _ _ refl (get-set_same name _ _)))

page_headers-queue :
    (h : Header) → Header.get (bytes "X-PeakShield-Queue") (page_headers h) ≡ bytes "1"
unfolding page_headers canonical
page_headers-queue h =
    let name = bytes "X-PeakShield-Queue" in
    skip (bytes "X-Robots-Tag") name _ _ refl (get-set_same name _ _)

module _ (estimate : ℤ → ℤ) where
  serve-IsWaitPage :
      (w : ResponseWriter) (position at : ℤ) (mode : WaitMode)
      → w.sent ≡ none
      → IsWaitPage
          (decimal (estimate position))
          (w.body ++ page_body estimate mode at)
          (serve_wait_page estimate (set_retry_after estimate position w) at mode)
  unfolding serve_wait_page set_retry_after set_header write write_header page_headers
  serve-IsWaitPage w position at mode fresh =
      let wait = decimal (estimate position) in
      let before = Header.set (bytes "Retry-After") wait w.header in
      rw fresh (
        record { status = 503; headers = page_headers before },
        refl,
        refl,
        page_headers-retry wait w.header,
        page_headers-cache before,
        page_headers-queue before,
        refl,
      )

  -- A request that finds the queue full gets the page of a full queue, and a request whose wait times
  -- out the page of its position: with status 503, with the headers against caching, and with the
  -- estimate for its position in Retry-After; the handler behind is not called.
  pub wait_page_lem {ℓ} :
      {A : Type ℓ} (served next : ResponseWriter → A) (position : ℤ) (w : ResponseWriter)
      → w.sent ≡ none
      → ((full : ResponseWriter) × (render estimate served next (queue_full_page position) w
            ≡ served full)
          × IsWaitPage
              (decimal (estimate position))
              (w.body ++ page_body estimate mode_queue_full (pos 0))
              full)
        × ((late : ResponseWriter) × (render estimate served next (timeout_page position) w
              ≡ served late)
            × IsWaitPage
                (decimal (estimate position))
                (w.body ++ page_body estimate mode_timeout position)
                late)
  unfolding render
  wait_page_lem served next position w fresh = (
    (
      serve_wait_page estimate (set_retry_after estimate position w) (pos 0) mode_queue_full,
      refl,
      serve-IsWaitPage w position (pos 0) mode_queue_full fresh,
    ),
    (
      serve_wait_page estimate (set_retry_after estimate position w) position mode_timeout,
      refl,
      serve-IsWaitPage w position position mode_timeout fresh,
    ),
  )
