-- ===== src/Stripper.antt =====
-- stripper/stripper.go: the HTML stripper.
-- Scan: hasTagPrefix, indexFold and the search for one byte. Html: stripHTML. Writer: stripperWriter
-- and Middleware. Pool: the buffers of requests that run at the same time.
pub mod Scan
pub mod Html
pub mod Pool
pub mod Writer
mod Tests
