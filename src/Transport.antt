-- ===== src/Transport.antt =====
-- src/transport: addresses, logical sessions, and the link that carries them.
pub mod Address
pub mod Session
pub mod Flow
pub mod Link
pub mod Pipe
