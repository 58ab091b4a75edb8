-- ===== src/Config/Load.antt =====
-- `parseRule`, `loadFromString` and `loadFromFile` of src/config/yaml_loader.cpp.
pub mod Checked
use shine.Prelude.{
  ℕ, List, [], ◌∷◌, ◌++◌, Option, none, some, Bool, true, false, Bytes, codes, Result, ok, err,
  invalid_argument, not_found, ◌>>=◌, ◌>>◌, ℤ, pos,
}
use shine.Absl.{Absl}
use shine.Route.Router.{RuleConfig}
use shine.Config.Schema.{
  InboundConfig, OutboundConfig, RouteConfig, LogConfig, MetricsConfig, ServerConfig, Config,
}
use shine.Config.Values.{Doubles}
use shine.Config.Yaml.{
  Yaml, caught, add_domains, add_ips, empty_rule, find, get_str, get_int, parse_seconds,
  parse_inbound, parse_outbound,
}
use shine.Config.Validate.{validate}

abbrev pub default_log : LogConfig
default_log = record { level = codes "info"; format = codes "text" }

abbrev pub default_server : ServerConfig
default_server = record { io_threads = 0; graceful_timeout = pos 30 }

abbrev pub default_metrics : MetricsConfig
default_metrics = record { listen = codes "127.0.0.1:9100"; path = codes "/metrics" }

abbrev pub default_route : RouteConfig
default_route = record { geoip_path = []; geosite_path = []; rules = []; default_outbound = [] }

module _ (yaml : Yaml) (absl : Absl) (doubles : Doubles) where
  open yaml use {Node}

  -- The texts of the items of a node; the whole is given up where one is no text.
  unfoldable pub texts : List Node → Result (List Bytes)
  texts [] = ok []
  texts (x ∷ xs) = do s ← caught (yaml.as_string x); rest ← texts xs; ok (s ∷ rest)

  -- `if (n[key]) for (auto x : n[key])`.
  unfoldable pub texts_of : Option Node → Result (List Bytes)
  texts_of none = ok []
  texts_of (some m) = texts (yaml.items m)

  unfoldable pub texts_at : Node → Bytes → Result (List Bytes)
  texts_at n key = find yaml absl doubles n key >>= texts_of

  unfoldable pub tag_of : Option Node → Result (Option Bytes)
  tag_of none = ok none
  tag_of (some m) = caught (yaml.as_string m) >>= λ s. ok (some s)

  unfoldable pub parse_rule : Node → Result RuleConfig
  parse_rule n = do
    inbound ← find yaml absl doubles n (codes "inbound") >>= tag_of
    domains ← texts_at n (codes "domain")
    suffixes ← texts_at n (codes "domain_suffix")
    ips ← texts_at n (codes "ip")
    cidrs ← texts_at n (codes "cidr")
    countries ← texts_at n (codes "geoip")
    sites ← texts_at n (codes "geosite")
    outbound ← get_str yaml absl doubles n (codes "outbound") []
    ok (
        let r = add_ips ips (
          let d = add_domains domains empty_rule in
          record d { domain_suffix = d.domain_suffix ++ suffixes }) in
        record r {
          inbound_tag = inbound;
          cidr_texts = r.cidr_texts ++ cidrs;
          geoip = r.geoip ++ countries;
          geosite = r.geosite ++ sites;
          outbound_tag = outbound;
        })

  -- A loop that gives up at the first error.
  unfoldable pub each : {A : Type 0} → (Node → Result A) → List Node → Result (List A)
  each parse [] = ok []
  each parse (n ∷ ns) = do a ← parse n; rest ← each parse ns; ok (a ∷ rest)

  -- `if (auto x = root[key]) for (auto n : x)`.
  unfoldable pub each_of : {A : Type 0} → (Node → Result A) → Option Node → Result (List A)
  each_of parse none = ok []
  each_of parse (some m) = each parse (yaml.items m)

  unfoldable pub each_at : {A : Type 0} → (Node → Result A) → Node → Bytes → Result (List A)
  each_at parse n key = find yaml absl doubles n key >>= each_of parse

  -- The sections of the file, each with what it is where it is missing.
  unfoldable pub parse_log : Option Node → Result LogConfig
  parse_log none = ok default_log
  parse_log (some n) = do
    level ← get_str yaml absl doubles n (codes "level") default_log.level
    format ← get_str yaml absl doubles n (codes "format") default_log.format
    ok (record { level = level; format = format })

  unfoldable pub parse_server : Option Node → Result ServerConfig
  parse_server none = ok default_server
  parse_server (some n) = do
    io_threads ← get_int yaml absl doubles n (codes "io_threads") 0
    timeout ← parse_seconds yaml absl doubles n (codes "graceful_timeout") (pos 30)
    ok (record { io_threads = io_threads; graceful_timeout = timeout })

  unfoldable pub parse_metrics : Option Node → Result MetricsConfig
  parse_metrics none = ok default_metrics
  parse_metrics (some n) = do
    listen ← get_str yaml absl doubles n (codes "listen") default_metrics.listen
    path ← get_str yaml absl doubles n (codes "path") default_metrics.path
    ok (record { listen = listen; path = path })

  unfoldable pub parse_route : Option Node → Result RouteConfig
  parse_route none = ok default_route
  parse_route (some n) = do
    geoip_path ← get_str yaml absl doubles n (codes "geoip_path") []
    geosite_path ← get_str yaml absl doubles n (codes "geosite_path") []
    rules ← each_at parse_rule n (codes "rules")
    default_outbound ← get_str yaml absl doubles n (codes "default") []
    ok (record {
      geoip_path = geoip_path;
      geosite_path = geosite_path;
      rules = rules;
      default_outbound = default_outbound;
    })

  unfoldable pub parse_root : Node → Result Config
  parse_root root = do
    log ← find yaml absl doubles root (codes "log") >>= parse_log
    server ← find yaml absl doubles root (codes "server") >>= parse_server
    metrics ← find yaml absl doubles root (codes "metrics") >>= parse_metrics
    inbounds ← each_at (parse_inbound yaml absl doubles) root (codes "inbounds")
    outbounds ← each_at (parse_outbound yaml absl doubles) root (codes "outbounds")
    route ← find yaml absl doubles root (codes "route") >>= parse_route
    ok (record {
      log = log;
      server = server;
      metrics = metrics;
      inbounds = inbounds;
      outbounds = outbounds;
      route = route;
    })

  -- `if (auto st = c.validate(); !st.ok()) return st; return c;`
  unfoldable pub checked : Config → Result Config
  checked c = validate c >> ok c

  unfoldable pub load_from_string : Bytes → Result Config
  load_from_string content = do root ← caught (yaml.load content); c ← parse_root root; checked c

  -- `loadFromFile`, on the contents of the file where it opens.
  unfoldable pub load_from_file : Bytes → Option Bytes → Result Config
  load_from_file path none = err (not_found (codes "cannot open config file: " ++ path))
  load_from_file path (some content) = load_from_string content
