-- ===== src/Config.antt =====
-- The configuration, src/config.
pub mod Schema
pub mod Values
pub mod Yaml
pub mod Load
pub mod Validate
