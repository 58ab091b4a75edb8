-- ===== src/Proto.antt =====
-- src/proto: the RESP2 subset on the wire and the frames of the Shine protocol.
pub mod Resp2
pub mod Words
pub mod Frame
