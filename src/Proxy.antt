-- ===== src/Proxy.antt =====
-- proxy/proxy.go: the reverse proxy.
-- Path: joinPath. Address: ExtractIP. Header: the copying and the sanitizing of headers. Request:
-- buildBackendRequest. Serve: ServeHTTP and writeError. Transport: New.
pub mod Path
pub mod Address
pub mod Header
pub mod Request
pub mod Escape
pub mod Failure
pub mod Serve
pub mod Transport
mod Tests
