-- ===== src/Route.antt =====
-- The choice of an outbound, src/route.
pub mod Suffix
pub mod Parents
pub mod Geo
pub mod Category
pub mod Cidr
pub mod Router
