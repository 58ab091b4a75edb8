-- ===== src/Proto/Resp2.antt =====
-- src/proto/resp2_parser and resp2_writer: bulk strings and arrays of bulk strings.
pub mod Writer
pub mod Parser
pub mod Scan
pub mod Bounds
pub mod Extension
pub mod RoundTrip
pub mod Streaming
