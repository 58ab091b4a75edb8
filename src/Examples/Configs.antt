-- ===== src/Examples/Configs.antt =====
-- A configuration, and a server that runs on it.
use shine.Prelude.{
  ℕ, ◌*◌, ◌≡◌, ◌⊎◌, refl, inl, inr, List, [], ◌∷◌, Option, none, some, false, Bytes, codes,
  bytes_eq, ok, pos, if◌then◌else◌,
}
use shine.Transport.Address.{from_domain}
use shine.Route.Category.{Regexes, find_code}
use shine.Route.Cidr.{Readers}
use shine.Route.Parents.{contains}
use shine.Route.Router.{Request, Router, pick, compile, compile_rules}
use shine.Config.Schema.{InboundConfig, OutboundConfig, Config}
use shine.Config.Values.{Doubles}
use shine.Config.Yaml.{
  Yaml, find, string_or, get_str, int_or, get_int, seconds_or, parse_seconds, size_or,
  parse_size_node, parse_inbound, parse_outbound,
}
use shine.Config.Load.{
  each, each_of, each_at, parse_log, parse_server, parse_metrics, parse_route, parse_root, checked,
  load_from_string, load_from_file, default_log, default_server, default_metrics, default_route,
}
use shine.Config.Load.Checked.{load_from_file-IsValid}
use shine.Config.Validate.{
  validate, validate_inbounds, validate_outbounds, validate_rules, validate_route,
}
use shine.Config.Validate.Laws.{IsValid}
use shine.Server.{
  socks5_inbound, OutboundKind, direct_outbound, Outbounds, make_inbound, make_outbound,
  emplace_unless, build_outbounds, start_inbounds, runs, boot, no_route, handed_to, dispatch,
}
use shine.Server.Complete.{dispatch_complete}
use shine.Examples.Numbers.{decimal}

-- A document with an inbound and a direct outbound.
data DocNode : Type 0 where
  root inbounds outbounds inbound outbound : DocNode
  text : Bytes → DocNode

abbrev if_key : Bytes → Bytes → DocNode → Option DocNode → Option DocNode
if_key key name n rest = if bytes_eq key name then some n else rest

abbrev at_key : DocNode → Bytes → Option DocNode
at_key root key =
    if_key key (codes "inbounds") inbounds (if_key key (codes "outbounds") outbounds none)
at_key inbound key = if_key key (codes "tag") (text (codes "in")) (
    if_key key (codes "protocol") (text (codes "socks5"))
      (if_key key (codes "listen") (text (codes "127.0.0.1:1080")) none))
at_key outbound key =
    if_key key (codes "tag") (text (codes "direct"))
      (if_key key (codes "protocol") (text (codes "direct")) none)
at_key _ key = none

abbrev items_of : DocNode → List DocNode
items_of inbounds = inbound ∷ []
items_of outbounds = outbound ∷ []
items_of _ = []

abbrev text_of : DocNode → Bytes ⊎ Bytes
text_of (text s) = inr s
text_of _ = inl (codes "no text")

abbrev document : Yaml
document = record {
  Node = DocNode;
  load = λ content. inr root;
  child = λ n key. inr (at_key n key);
  items = items_of;
  as_string = text_of;
  as_int = λ n. inl (codes "no number");
}

abbrev whole_numbers : Doubles
whole_numbers = record { Double = ℕ; simple_atod = λ s. none; times = λ d n. d * n; to_i64 = pos }

abbrev the_inbound : InboundConfig
the_inbound = record {
  tag = codes "in";
  protocol = codes "socks5";
  listen = codes "127.0.0.1:1080";
  password = [];
  max_payload = 536870912;
  ping_interval = pos 15;
  pong_timeout = pos 10;
  handshake_timeout = pos 5;
  init_window = 262144;
  user = [];
  pass = [];
}

abbrev the_outbound : OutboundConfig
the_outbound = record {
  tag = codes "direct";
  protocol = codes "direct";
  server = [];
  password = [];
  pool_size = 1;
  ping_interval = pos 15;
  pong_timeout = pos 10;
  handshake_timeout = pos 5;
  init_window = 262144;
  user = [];
  pass = [];
}

abbrev the_config : Config
the_config = record {
  log = default_log;
  server = default_server;
  metrics = default_metrics;
  inbounds = the_inbound ∷ [];
  outbounds = the_outbound ∷ [];
  route = default_route;
}

loaded :
    load_from_file document decimal whole_numbers (codes "shine.yaml") (some (codes "..."))
    ≡ ok the_config
unfolding load_from_file load_from_string checked parse_root each_at each_of each parse_log
    parse_server parse_metrics parse_route find string_or get_str int_or get_int seconds_or
    parse_seconds size_or parse_size_node parse_inbound parse_outbound validate validate_inbounds
    validate_outbounds validate_rules validate_route contains
loaded = refl

load_from_file-IsValid_example : IsValid the_config
load_from_file-IsValid_example =
    load_from_file-IsValid document decimal whole_numbers (codes "shine.yaml") (some (codes "..."))
      the_config loaded

abbrev no_regexes : Regexes
no_regexes = record { Regex = Bytes; compile = λ t. none; search = λ d t. false }

abbrev no_readers : Readers
no_readers = record { make_address = λ t. none; simple_atoi_int = λ t. none }

abbrev router : Router no_regexes
router = record { rules = []; default_outbound = []; geo_site = none; geo_ip = none }

abbrev outs : Outbounds
outs = (codes "direct", direct_outbound) ∷ []

booted :
    boot no_regexes no_readers none none
      (λ kind i. ok tt)
      (load_from_file document decimal whole_numbers (codes "shine.yaml") (some (codes "...")))
    ≡ runs router outs (socks5_inbound ∷ [])
unfolding boot load_from_file load_from_string checked parse_root each_at each_of each parse_log
    parse_server parse_metrics parse_route find string_or get_str int_or get_int seconds_or
    parse_seconds size_or parse_size_node parse_inbound parse_outbound validate validate_inbounds
    validate_outbounds validate_rules validate_route contains compile compile_rules make_inbound
    make_outbound emplace_unless build_outbounds start_inbounds find_code
booted = refl

abbrev request : Request
request = record { inbound = codes "in"; target = from_domain (codes "a.b") 443 }

dispatch_complete_example :
    ((pick no_regexes request router ≡ []) × (dispatch no_regexes router outs request ≡ no_route))
    ⊎ ((kind : OutboundKind) × (dispatch no_regexes router outs request ≡ handed_to kind))
dispatch_complete_example =
    dispatch_complete no_regexes document decimal whole_numbers no_readers none none
      (λ kind i. ok tt) (codes "shine.yaml") (some (codes "...")) router outs (socks5_inbound ∷ [])
      request booted
