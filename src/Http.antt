-- ===== src/Http.antt =====
-- What the handlers use of net/http and net/textproto: header maps and the response writer.
pub mod Header
pub mod Writer
