-- ===== src/Config/Schema.antt =====
-- The records of src/config/schema.hpp. A number of seconds is an integer of 64 bits.
use shine.Prelude.{ℕ, ◌*◌, List, Bytes, ℤ}
use shine.Route.Router.{RuleConfig}

pub record InboundConfig : Type 0 where
  pub tag : Bytes
  pub protocol : Bytes
  pub listen : Bytes
  pub password : Bytes
  pub max_payload : ℕ
  pub ping_interval : ℤ
  pub pong_timeout : ℤ
  pub handshake_timeout : ℤ
  pub init_window : ℕ
  pub user : Bytes
  pub pass : Bytes

pub record OutboundConfig : Type 0 where
  pub tag : Bytes
  pub protocol : Bytes
  pub server : Bytes
  pub password : Bytes
  pub pool_size : ℕ
  pub ping_interval : ℤ
  pub pong_timeout : ℤ
  pub handshake_timeout : ℤ
  pub init_window : ℕ
  pub user : Bytes
  pub pass : Bytes

pub record RouteConfig : Type 0 where
  pub geoip_path : Bytes
  pub geosite_path : Bytes
  pub rules : List RuleConfig
  pub default_outbound : Bytes

pub record LogConfig : Type 0 where
  pub level : Bytes
  pub format : Bytes

pub record MetricsConfig : Type 0 where
  pub listen : Bytes
  pub path : Bytes

pub record ServerConfig : Type 0 where
  pub io_threads : ℕ
  pub graceful_timeout : ℤ

pub record Config : Type 0 where
  pub log : LogConfig
  pub server : ServerConfig
  pub metrics : MetricsConfig
  pub inbounds : List InboundConfig
  pub outbounds : List OutboundConfig
  pub route : RouteConfig

-- The values that the members of the classes begin with.
abbrev pub default_max_payload : ℕ
default_max_payload = 512 * 1024 * 1024

abbrev pub default_window : ℕ
default_window = 256 * 1024
