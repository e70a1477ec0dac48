-- ===== src/WaitingRoom/WaitPage.antt =====
-- waitingroom/waitingroom.go: estimateWait, serveWaitPage, and the Retry-After header.
pub mod Template
pub mod Estimate
pub mod Headers
use peakshield.Prelude.{◌++◌}
use peakshield.Prelude.Int.{ℤ, pos}
use peakshield.Prelude.Bytes.{Bytes, bytes, decimal}
use peakshield.Http.Writer.{ResponseWriter, set_header, write_header, write}
use peakshield.WaitingRoom.Goroutine.{
  Reply, forwarded, forwarded_late, queue_full_page, timeout_page, hung_up,
}
use Template.{page_head, page_middle, page_tail}

-- waitMode
pub data WaitMode : Type 0 where
  mode_queued mode_queue_full mode_timeout : WaitMode

-- `estimate` stands for wr.estimateWait, at the room's configuration.
module _ (estimate : ℤ → ℤ) where
  -- the first %s of the page
  unfoldable pub main_message : WaitMode → ℤ → Bytes
  main_message mode_queued position =
      bytes "Queue position: <strong style=\"color:#38bdf8;font-size:1.4rem\">#"
      ++ decimal position
      ++ bytes "</strong>"
  main_message mode_queue_full position = bytes "The server is at full capacity right now."
  main_message mode_timeout position =
      bytes "Still waiting &mdash; queue position was <strong style=\"color:#38bdf8\">#"
      ++ decimal position
      ++ bytes "</strong>."

  -- the second %s of the page
  unfoldable pub detail_message : WaitMode → ℤ → Bytes
  detail_message mode_queued position =
      bytes "Estimated wait: approximately " ++ decimal (estimate position) ++ bytes " seconds."
  detail_message mode_queue_full position =
      bytes "You will be automatically redirected when a slot becomes available."
  detail_message mode_timeout position =
      bytes "Estimated remaining wait: ~"
      ++ decimal (estimate position)
      ++ bytes " seconds. Holding your place."

  unfoldable pub page_body : WaitMode → ℤ → Bytes
  unfolding main_message detail_message
  page_body mode position =
      page_head
      ++ main_message mode position
      ++ page_middle
      ++ detail_message mode position
      ++ page_tail

  unfoldable pub serve_wait_page : ResponseWriter → ℤ → WaitMode → ResponseWriter
  serve_wait_page w position mode = write (page_body mode position) (
      write_header 503 (
        set_header (bytes "X-Robots-Tag") (bytes "noindex, nofollow") (
          set_header (bytes "X-PeakShield-Queue") (bytes "1") (
            set_header (bytes "Pragma") (bytes "no-cache") (
              set_header (bytes "Cache-Control")
                (bytes "no-store, no-cache, must-revalidate, max-age=0")
                (set_header (bytes "Content-Type") (bytes "text/html; charset=utf-8") w))))))

  -- w.Header().Set("Retry-After", ...), before the goroutine parks or the page is served
  unfoldable pub set_retry_after : ℤ → ResponseWriter → ResponseWriter
  set_retry_after position w = set_header (bytes "Retry-After") (decimal (estimate position)) w

  -- What Middleware does for each reply, with `next` for next.ServeHTTP, and `served` for a return
  -- without it. A full queue is served with position 0. A goroutine that parked has set the header
  -- before, whatever comes of it.
  unfoldable pub render {ℓ} :
      {A : Type ℓ} → (ResponseWriter → A) → (ResponseWriter → A) → Reply → ResponseWriter → A
  unfolding serve_wait_page set_retry_after
  render served next forwarded w = next w
  render served next (forwarded_late position) w = next (set_retry_after position w)
  render served next (queue_full_page position) w =
      served (serve_wait_page (set_retry_after position w) (pos 0) mode_queue_full)
  render served next (timeout_page position) w =
      served (serve_wait_page (set_retry_after position w) position mode_timeout)
  render served next hung_up w = served w
