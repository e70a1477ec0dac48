-- ===== src/Server/Listen.antt =====
-- main.go: the two servers' timeouts, and the page of /metrics.
use peakshield.Prelude.{ℕ, ◌+◌, ◌^◌, ◌<◌, ◌≡◌, ◌++◌, refl, arith}
use peakshield.Prelude.Int.{ℤ, pos, add64, add64_pos, ◌<ℤ◌}
use peakshield.Prelude.Bytes.{Bytes, bytes, decimal}
use peakshield.Prelude.Float.{Float64}
use peakshield.Config.Load.{Config, seconds}
use peakshield.WaitingRoom.Room.{Room, Limits, get_stats}
use peakshield.Http.Writer.{ResponseWriter, set_header, write}

-- http.Server, less its handler
pub record HttpServer : Type 0 where
  pub addr : Bytes
  pub read_timeout : ℤ
  pub write_timeout : ℤ
  pub idle_timeout : ℤ

module _ (float : Float64) where
  unfoldable pub proxy_server : Config float → HttpServer
  proxy_server c = record {
    addr = c.listen_addr;
    read_timeout = seconds 10;
    write_timeout = add64 (add64 c.queue_timeout c.backend_timeout) (seconds 15);
    idle_timeout = seconds 120;
  }

  unfoldable pub metrics_server : Config float → HttpServer
  metrics_server c = record {
    addr = c.metrics_listen_addr;
    read_timeout = seconds 5;
    write_timeout = seconds 10;
    idle_timeout = seconds 120;
  }

  -- A response on the public port may take as long as the longest wait in the queue, the longest wait
  -- for the backend, and fifteen seconds, where the sum fits an int64: the server's own limit ends
  -- neither of the two waits.
  pub write_timeout_lem :
      (c : Config float) (q b : ℕ)
      → c.queue_timeout ≡ pos q
      → c.backend_timeout ≡ pos b
      → q + b + 15_000_000_000 < 2 ^ 63
      → (c.queue_timeout <ℤ (proxy_server c).write_timeout)
        × (c.backend_timeout <ℤ (proxy_server c).write_timeout)
        × ((proxy_server c).write_timeout ≡ pos (q + b + 15_000_000_000))
  unfolding proxy_server
  write_timeout_lem c q b queue backend fits =
      rw (queue, backend, add64_pos q b (omega arith), add64_pos (q + b) 15_000_000_000 fits)
        (omega arith, omega arith, refl)

-- one gauge in the text format of Prometheus; its three calls of Fprintf are taken as one write
unfoldable pub gauge : Bytes → Bytes → Bytes → Bytes
gauge name help value =
    bytes "# HELP "
    ++ name
    ++ bytes " "
    ++ help
    ++ bytes "\n# TYPE "
    ++ name
    ++ bytes " gauge\n"
    ++ name
    ++ bytes " "
    ++ value
    ++ bytes "\n"

-- the handler of /metrics, with runtime.NumGoroutine() and mem.Alloc
unfoldable pub serve_metrics : Limits → Room → ℤ → ℕ → ResponseWriter → ResponseWriter
unfolding get_stats gauge
serve_metrics limits room goroutines alloc w =
    let stats = get_stats limits room in
    write
      (gauge (bytes "peakshield_alloc_bytes") (bytes "Bytes allocated and still in use")
        (decimal (pos alloc)))
      (write
        (gauge (bytes "peakshield_goroutines") (bytes "Number of active goroutines")
          (decimal goroutines))
        (write
          (gauge (bytes "peakshield_queue_depth") (bytes "Number of requests waiting in queue")
            (decimal stats.queue_depth))
          (write
            (gauge (bytes "peakshield_active_requests")
              (bytes "Number of requests currently in-flight to backend")
              (decimal stats.active_requests))
            (set_header (bytes "Content-Type") (bytes "text/plain; version=0.0.4") w))))
