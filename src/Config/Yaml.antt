-- ===== src/Config/Yaml.antt =====
-- `loadFromString` of src/config/yaml_loader.cpp and the readers that it calls, on the nodes of
-- yaml-cpp, which are a parameter.
use shine.Prelude.{
  ℕ, ◌%◌, ◌^◌, ◌⊎◌, inl, inr, List, [], ◌∷◌, ◌++◌, Option, none, some, Bytes, codes, Result, ok,
  err, invalid_argument, ◌>>=◌, ◌==◌, if◌then◌else◌, ℤ, pos,
}
use shine.Absl.{Absl}
use shine.Route.Router.{RuleConfig}
use shine.Config.Schema.{InboundConfig, OutboundConfig, default_max_payload, default_window}
use shine.Config.Values.{Doubles, parse_duration, to_seconds, parse_size, to_size}

-- What yaml-cpp answers; on the left is the text of an exception. `child` is `n[key]`, none where it
-- is not defined.
pub record Yaml : Type 1 where
  pub Node : Type 0
  pub load : Bytes → Bytes ⊎ Node
  pub child : Node → Bytes → Bytes ⊎ Option Node
  pub items : Node → List Node
  pub as_string : Node → Bytes ⊎ Bytes
  pub as_int : Node → Bytes ⊎ ℤ

-- The `catch` of `loadFromString`.
abbrev pub caught : {A : Type 0} → Bytes ⊎ A → Result A
caught (inl what) = err (invalid_argument (codes "yaml parse: " ++ what))
caught (inr a) = ok a

-- `as<T>(def)`.
abbrev pub value_or : {A : Type 0} → A → Bytes ⊎ A → A
value_or def (inl what) = def
value_or def (inr a) = a

-- The text behind a prefix, where it is one.
unfoldable pub behind : Bytes → Bytes → Option Bytes
behind [] s = some s
behind (p ∷ prefix) [] = none
behind (p ∷ prefix) (c ∷ s) = let rest = behind prefix s in if p == c then rest else none

-- The branches over an entry of `domain` and of `ip`.
unfoldable pub add_full : Bytes → Option Bytes → RuleConfig → RuleConfig
add_full d (some name) r = record r { domain_exact = r.domain_exact ++ (name ∷ []) }
add_full d none r = record r { domain_exact = r.domain_exact ++ (d ∷ []) }

unfoldable pub add_suffix : Bytes → Option Bytes → RuleConfig → RuleConfig
add_suffix d (some name) r = record r { domain_suffix = r.domain_suffix ++ (name ∷ []) }
add_suffix d none r = add_full d (behind (codes "full:") d) r

unfoldable pub add_site : Bytes → Option Bytes → RuleConfig → RuleConfig
add_site d (some name) r = record r { geosite = r.geosite ++ (name ∷ []) }
add_site d none r = add_suffix d (behind (codes "domain:") d) r

unfoldable pub add_domains : List Bytes → RuleConfig → RuleConfig
add_domains [] r = r
add_domains (d ∷ ds) r = add_domains ds (add_site d (behind (codes "geosite:") d) r)

unfoldable pub add_ip : Bytes → Option Bytes → RuleConfig → RuleConfig
add_ip ip (some name) r = record r { geoip = r.geoip ++ (name ∷ []) }
add_ip ip none r = record r { cidr_texts = r.cidr_texts ++ (ip ∷ []) }

unfoldable pub add_ips : List Bytes → RuleConfig → RuleConfig
add_ips [] r = r
add_ips (ip ∷ ips) r = add_ips ips (add_ip ip (behind (codes "geoip:") ip) r)

abbrev pub empty_rule : RuleConfig
empty_rule = record {
  inbound_tag = none;
  domain_exact = [];
  domain_suffix = [];
  cidr_texts = [];
  geoip = [];
  geosite = [];
  outbound_tag = [];
}

module _ (yaml : Yaml) (absl : Absl) (doubles : Doubles) where
  abbrev pub Node : Type 0
  Node = yaml.Node

  -- `if (n[key])`.
  unfoldable pub find : Node → Bytes → Result (Option Node)
  find n key = caught (yaml.child n key)

  unfoldable pub string_or : Bytes → Option Node → Bytes
  string_or def none = def
  string_or def (some m) = value_or def (yaml.as_string m)

  unfoldable pub get_str : Node → Bytes → Bytes → Result Bytes
  get_str n key def = find n key >>= λ m. ok (string_or def m)

  unfoldable pub int_or : ℕ → Option Node → ℕ
  int_or def none = def
  int_or def (some m) = to_size (value_or (pos def) (yaml.as_int m))

  unfoldable pub get_int : Node → Bytes → ℕ → Result ℕ
  get_int n key def = find n key >>= λ m. ok (int_or def m)

  unfoldable pub seconds_or : ℤ → Option Node → Result ℤ
  seconds_or def none = ok def
  seconds_or def (some m) = do
    s ← caught (yaml.as_string m)
    ms ← parse_duration doubles s
    ok (to_seconds ms)

  unfoldable pub parse_seconds : Node → Bytes → ℤ → Result ℤ
  parse_seconds n key def = find n key >>= seconds_or def

  unfoldable pub size_or : ℕ → Option Node → Result ℕ
  size_or def none = ok def
  size_or def (some m) = caught (yaml.as_string m) >>= parse_size absl

  unfoldable pub parse_size_node : Node → Bytes → ℕ → Result ℕ
  parse_size_node n key def = find n key >>= size_or def

  -- `init_window` is cut to 32 bits.
  unfoldable pub parse_inbound : Node → Result InboundConfig
  parse_inbound n = do
    tag ← get_str n (codes "tag") []
    protocol ← get_str n (codes "protocol") []
    listen ← get_str n (codes "listen") []
    password ← get_str n (codes "password") []
    user ← get_str n (codes "user") []
    pass ← get_str n (codes "pass") []
    max_payload ← parse_size_node n (codes "max_payload") default_max_payload
    window ← parse_size_node n (codes "init_window") default_window
    ping_interval ← parse_seconds n (codes "ping_interval") (pos 15)
    pong_timeout ← parse_seconds n (codes "pong_timeout") (pos 10)
    handshake_timeout ← parse_seconds n (codes "handshake_timeout") (pos 5)
    ok (record {
      tag = tag;
      protocol = protocol;
      listen = listen;
      password = password;
      max_payload = max_payload;
      ping_interval = ping_interval;
      pong_timeout = pong_timeout;
      handshake_timeout = handshake_timeout;
      init_window = window % 2 ^ 32;
      user = user;
      pass = pass;
    })

  unfoldable pub parse_outbound : Node → Result OutboundConfig
  parse_outbound n = do
    tag ← get_str n (codes "tag") []
    protocol ← get_str n (codes "protocol") []
    server ← get_str n (codes "server") []
    password ← get_str n (codes "password") []
    user ← get_str n (codes "user") []
    pass ← get_str n (codes "pass") []
    pool_size ← get_int n (codes "pool_size") 1
    window ← parse_size_node n (codes "init_window") default_window
    ping_interval ← parse_seconds n (codes "ping_interval") (pos 15)
    pong_timeout ← parse_seconds n (codes "pong_timeout") (pos 10)
    handshake_timeout ← parse_seconds n (codes "handshake_timeout") (pos 5)
    ok (record {
      tag = tag;
      protocol = protocol;
      server = server;
      password = password;
      pool_size = pool_size;
      ping_interval = ping_interval;
      pong_timeout = pong_timeout;
      handshake_timeout = handshake_timeout;
      init_window = window % 2 ^ 32;
      user = user;
      pass = pass;
    })
