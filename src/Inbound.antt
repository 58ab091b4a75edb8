-- ===== src/Inbound.antt =====
-- The inbounds, src/inbound: where requests enter.
pub mod Socks5
pub mod Http
pub mod Listen
pub mod Shine
