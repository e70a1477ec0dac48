-- ===== src/Lib.antt =====
-- PeakShield: a reverse proxy that keeps a backend from being overrun. A request of the public port
-- passes the rate limiter, the waiting room and the stripper, in this order, and then the proxy.
--
-- Middleware (middleware/chain.go): Chain, which nests the handlers.
-- Server (main.go): the handlers of the public port together. What the limiter, the waiting room and
--   the backend come to for one request is a Moment; the handlers are functions of it. Listen: the
--   servers' timeouts, and the page of /metrics. Stats: the page of /__peakshield/stats. Start: main
--   up to its two servers, and what holds of the parts that it puts together. Shutdown: main from
--   the termination signal on.
-- WaitingRoom (waitingroom/waitingroom.go): Room is the shared state, with one operation for each
--   atomic access and each channel operation. Goroutine is Middleware, releaseSlot, signalNext and
--   drainTicket, cut at these accesses: `move` is the next access of a goroutine, by the place where
--   it stands. System interleaves the goroutines of n requests in any order; timers and
--   disconnections are events that come at any time. A ticket is named by its owner's number.
--   WaitPage: the page and the headers, with Template and Estimate (estimateWait).
-- RateLimiter (ratelimiter/token_bucket.go): Bucket is one bucket with consume; Hash is shardFor;
--   Limiter is New, Allow, getOrCreate, Stats and runGC over a heap of buckets, since the maps hold
--   pointers, with each call taken as a whole and the times that it reads off the clock as arguments.
--   Limiter/Spec is the table of buckets that a Limiter stands for, and Limiter/Loop is gcLoop.
--   Concurrent cuts Allow where it holds no lock, and interleaves calls with one another and with the
--   deletions of runGC. Concurrent/Linear is the order in which such calls take effect.
-- Stripper (stripper/stripper.go): Scan is hasTagPrefix and indexFold, Html is stripHTML, and
--   Html/Tokens what its comments promise, as a relation on tokens without places and searches.
--   Writer is stripperWriter and Middleware over a handler that is given as its operations on the
--   writer. Pool is the pool of buffers, for requests that run at the same time.
-- Proxy (proxy/proxy.go): Path is joinPath, Address is ExtractIP, Header the copying and sanitizing
--   of headers, Request is buildBackendRequest, Failure is writeError, with the
--   escapes of JSON in Escape, Serve is ServeHTTP, Transport is New.
-- Config (config/config.go): Parse is the readers of environment variables, Load is Load and
--   validate.
-- Http: the header map and the response writer of net/http, as far as the program uses them.
-- Prelude: integers that wrap at 64 bits, bytes, searches in them, results, float64 as an interface
--   with what IEEE 754 says of it, and concrete numbers that fill this interface.
--
-- Bounds: the number of requests is below 2^63, so that int64 counters can hold it. The filter of
-- the stripper runs on fuel, one round more than the page has bytes; each round takes at least one
-- byte, so the fuel is enough.
--
-- Parameters: url.Parse, client.Do, http.DetectContentType, time.ParseDuration, float64 and its
-- printing, the numbers of the Go runtime, and the choice of sync.Pool. Header maps are lists, and
-- Go's random order of iteration is the order of the list.
--
-- Not modelled: logging, but for the lines of a shutdown, the listening of the servers and
-- http.ServeMux. A panic is modelled at WriteHeader with a backend's status below 100 alone, as a
-- response that is not sent. `time.After` and the ticker of gcLoop may fire at any time.
pub mod Prelude
pub mod Http
pub mod Config
pub mod WaitingRoom
pub mod RateLimiter
pub mod Stripper
pub mod Proxy
pub mod Middleware
pub mod Server
