-- ===== src/Outbound.antt =====
-- The outbounds, src/outbound: where requests leave.
pub mod Socks5
pub mod Shine
pub mod Direct
pub mod Http
