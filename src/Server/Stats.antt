-- ===== src/Server/Stats.antt =====
-- main.go: the handler of /__peakshield/stats.
use peakshield.Prelude.{ℕ, ◌^◌, ◌<◌, ◌≡◌, refl, ◌++◌, [], ◌∷◌, List}
use peakshield.Prelude.Int.{ℤ, pos, ◌≤ℤ◌}
use peakshield.Prelude.Bytes.{Bytes, bytes, decimal}
use peakshield.Prelude.Family.{sum_below}
use peakshield.Prelude.Float.{Float64}
use peakshield.WaitingRoom.Room.{Room, Limits, Stats, get_stats}
use peakshield.WaitingRoom.System.{System, Reach}
use peakshield.WaitingRoom.Invariant.{in_flight, in_depth}
use peakshield.WaitingRoom.Safety.{counters_exact}
use peakshield.Http.Writer.{ResponseWriter, set_header, write}

-- What the handler takes from the runtime: runtime.NumGoroutine() and three fields of MemStats.
pub record Runtime : Type 0 where
  pub goroutines : ℤ
  pub alloc : ℕ
  pub sys : ℕ
  pub num_gc : ℕ

-- `"name":value`, and an object of such fields
abbrev field : Bytes → Bytes → Bytes
field name value = bytes "\"" ++ name ++ bytes "\":" ++ value

abbrev fields : List Bytes → Bytes
fields [] = []
fields (f ∷ []) = f
fields (f ∷ g ∷ fs) = f ++ bytes "," ++ fields (g ∷ fs)

abbrev object : List Bytes → Bytes
object fs = bytes "{" ++ fields fs ++ bytes "}"

-- the JSON of waitingroom.Stats, by the tags of its fields
unfoldable pub stats_json : Stats → Bytes
stats_json s = object (
    field (bytes "active_requests") (decimal s.active_requests)
    ∷ field (bytes "queue_depth") (decimal s.queue_depth)
    ∷ field (bytes "max_concurrent") (decimal s.max_concurrent)
    ∷ field (bytes "queue_capacity") (decimal (pos s.queue_capacity))
    ∷ [])

-- `print_float` stands for what encoding/json makes of a float64.
module _ (float : Float64) (print_float : Float64.Real float → Bytes) where
  open float use {Real, of_int, div}

  -- float64(n) / 1024 / 1024
  abbrev megabytes : ℕ → Real
  megabytes n = div (div (of_int (pos n)) (of_int (pos 1024))) (of_int (pos 1024))

  -- the struct that the handler builds, with the newline that Encode adds
  unfoldable pub runtime_json : Stats → Runtime → Bytes
  unfolding stats_json
  runtime_json s m =
      object (
        field (bytes "waiting_room") (stats_json s)
        ∷ field (bytes "goroutines") (decimal m.goroutines)
        ∷ field (bytes "allocated_mb") (print_float (megabytes m.alloc))
        ∷ field (bytes "sys_mb") (print_float (megabytes m.sys))
        ∷ field (bytes "num_gc") (decimal (pos m.num_gc))
        ∷ [])
      ++ bytes "\n"

  unfoldable pub serve_stats : Limits → Room → Runtime → ResponseWriter → ResponseWriter
  unfolding runtime_json get_stats
  serve_stats limits room m w =
      write (runtime_json (get_stats limits room) m)
        (set_header (bytes "Content-Type") (bytes "application/json") w)

  -- For fewer than 2^63 requests and a MaxConcurrent that is not negative, the page shows at all times
  -- the numbers of the goroutines that are in flight and that wait.
  serve_stats_exact :
      {n : ℕ} {c : Limits} {s : System} (m : Runtime) (w : ResponseWriter)
      → n < 2 ^ 63
      → pos 0 ≤ℤ c.max_concurrent
      → Reach n c s
      → serve_stats c s.room m w
        ≡ write
            (runtime_json
              (record {
                active_requests = pos (sum_below in_flight n s.pc);
                queue_depth = pos (sum_below in_depth n s.pc);
                max_concurrent = c.max_concurrent;
                queue_capacity = c.queue_size;
              })
              m)
            (set_header (bytes "Content-Type") (bytes "application/json") w)
  unfolding serve_stats get_stats
  serve_stats_exact m w small breaker r =
      let (active, depth) = counters_exact small breaker r in rw (active, depth) refl
