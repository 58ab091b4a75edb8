-- ===== src/Transport/Link.antt =====
-- src/transport/link.cpp: one TCP connection that carries frames.
pub mod Receive
pub mod State
pub mod Closing
pub mod Dispatch
pub mod Handshake
pub mod Heartbeat
pub mod Reader
pub mod Opening
pub mod Writer
