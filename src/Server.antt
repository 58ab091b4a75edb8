-- ===== src/Server.antt =====
-- `main` and `dispatch` of src/main.cpp, and the factories of src/inbound/factory.cpp and
-- src/outbound/factory.cpp: from a configuration to a running server, and from a request to the
-- outbound that handles it.
pub mod Complete
use shine.Prelude.{
  ℕ, List, [], ◌∷◌, ◌++◌, Option, none, some, Bool, true, false, Bytes, codes, bytes_eq, Result, ok,
  err, invalid_argument, ◌>>=◌, ◌>>◌, if◌then◌else◌,
}
use shine.Route.Category.{Regexes, SiteCategory, IpCategory, find_code}
use shine.Route.Cidr.{Readers}
use shine.Route.Router.{Request, Router, pick, compile}
use shine.Config.Schema.{InboundConfig, OutboundConfig, Config}

-- The classes that the factories make.
pub data InboundKind : Type 0 where
  socks5_inbound http_connect_inbound shine_inbound : InboundKind

pub data OutboundKind : Type 0 where
  direct_outbound block_outbound shine_outbound socks5_outbound http_connect_outbound : OutboundKind

unfoldable pub make_inbound : Bytes → Result InboundKind
make_inbound protocol =
    if bytes_eq protocol (codes "socks5")
    then ok socks5_inbound
    else if bytes_eq protocol (codes "http-connect")
    then ok http_connect_inbound
    else if bytes_eq protocol (codes "shine")
    then ok shine_inbound
    else err (invalid_argument (codes "unknown inbound protocol: " ++ protocol))

unfoldable pub make_outbound : Bytes → Result OutboundKind
make_outbound protocol =
    if bytes_eq protocol (codes "direct")
    then ok direct_outbound
    else if bytes_eq protocol (codes "block")
    then ok block_outbound
    else if bytes_eq protocol (codes "shine-client")
    then ok shine_outbound
    else if bytes_eq protocol (codes "socks5")
    then ok socks5_outbound
    else if bytes_eq protocol (codes "http-connect")
    then ok http_connect_outbound
    else err (invalid_argument (codes "unknown outbound protocol: " ++ protocol))

abbrev pub Outbounds : Type 0
Outbounds = List (Bytes × OutboundKind)

-- `outbounds->emplace(oc.tag, *ob)`, which keeps an entry that is there.
unfoldable pub emplace_unless : Option OutboundKind → Bytes → OutboundKind → Outbounds → Outbounds
emplace_unless none tag kind obs = (tag, kind) ∷ obs
emplace_unless (some old) tag kind obs = obs

unfoldable pub build_outbounds : Outbounds → List OutboundConfig → Result Outbounds
build_outbounds obs [] = ok obs
build_outbounds obs (o ∷ outbounds) = do
  kind ← make_outbound o.protocol
  build_outbounds (emplace_unless (find_code o.tag obs) o.tag kind obs) outbounds

-- The inbounds, each made and started; `start` answers for the sockets.
unfoldable pub start_inbounds :
    (InboundKind → InboundConfig → Result (Unit {0}))
    → List InboundConfig
    → Result (List InboundKind)
start_inbounds start [] = ok []
start_inbounds start (i ∷ inbounds) = do
  kind ← make_inbound i.protocol
  start kind i
  rest ← start_inbounds start inbounds
  ok (kind ∷ rest)

-- What becomes of a request: dropped, or handed to an outbound.
pub data Dispatched : Type 0 where
  no_route : Dispatched
  not_there : Bytes → Dispatched
  handed_to : OutboundKind → Dispatched

unfoldable pub hand_over : Bytes → Option OutboundKind → Dispatched
hand_over tag none = not_there tag
hand_over tag (some kind) = handed_to kind

unfoldable pub dispatch_to : Bytes → Outbounds → Dispatched
dispatch_to [] obs = no_route
dispatch_to (b ∷ tag) obs = hand_over (b ∷ tag) (find_code (b ∷ tag) obs)

module _ (regexes : Regexes) where
  -- The process exits with a code, or runs.
  pub data Boot : Type 0 where
    exits : ℕ → Boot
    runs : Router regexes → Outbounds → List InboundKind → Boot

  -- `if (!x.ok()) return code;`
  abbrev pub or_exit : {A : Type 0} → ℕ → Result A → (A → Boot) → Boot
  or_exit code (err status) k = exits code
  or_exit code (ok a) k = k a

  -- `main` behind the reading of its arguments, on the configuration that was loaded and the
  -- matchers that `compile` loads.
  unfoldable pub boot :
      Readers
      → Option (List (Bytes × SiteCategory regexes))
      → Option (List (Bytes × IpCategory))
      → (InboundKind → InboundConfig → Result (Unit {0}))
      → Result Config
      → Boot
  boot readers sites ips start config = or_exit 1 config λ c.
      or_exit 2 (build_outbounds [] c.outbounds) λ obs.
        or_exit 2 (compile regexes readers c.route.rules c.route.default_outbound sites ips)
          λ router. or_exit 2 (start_inbounds start c.inbounds) λ kinds. runs router obs kinds

  unfoldable pub dispatch : Router regexes → Outbounds → Request → Dispatched
  dispatch router obs r = dispatch_to (pick regexes r router) obs
