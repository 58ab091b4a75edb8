-- ===== src/Config/Validate.antt =====
-- `Config::validate` of src/config/yaml_loader.cpp.
pub mod Inbounds
pub mod Laws
use shine.Prelude.{
  ℕ, List, [], ◌∷◌, ◌++◌, Bool, true, false, not, ◌||◌, Bytes, codes, bytes_eq, Result, ok, err,
  invalid_argument, ◌>>=◌, ◌>>◌, if◌then◌else◌,
}
use shine.Route.Parents.{contains}
use shine.Route.Router.{RuleConfig}
use shine.Config.Schema.{InboundConfig, OutboundConfig, RouteConfig, Config}

abbrev pub is_empty : Bytes → Bool
is_empty [] = true
is_empty (b ∷ s) = false

-- `if (!test) return absl::InvalidArgumentError(message);`
abbrev pub require : Bool → Bytes → Result (Unit {0})
require true message = ok tt
require false message = err (invalid_argument message)

-- The loop over the inbounds, with the tags so far.
unfoldable pub validate_inbounds : List Bytes → List InboundConfig → Result (Unit {0})
validate_inbounds tags [] = ok tt
validate_inbounds tags (i ∷ inbounds) = do
  require (not (is_empty i.tag)) (codes "inbound tag empty")
  require (not (contains tags (codes "in:" ++ i.tag))) (codes "duplicate inbound tag: " ++ i.tag)
  require (not (is_empty i.listen)) ((codes "inbound " ++ i.tag) ++ codes " missing listen")
  validate_inbounds ((codes "in:" ++ i.tag) ∷ tags) inbounds

abbrev pub is_nil : {A : Type 0} → List A → Bool
is_nil [] = true
is_nil (x ∷ xs) = false

abbrev pub is_direct : OutboundConfig → Bool
is_direct o = bytes_eq o.protocol (codes "direct")

-- The loop over the outbounds: the tags, and whether one of them is direct.
unfoldable pub validate_outbounds :
    List Bytes → Bool → List OutboundConfig → Result (List Bytes × Bool)
validate_outbounds tags has_direct [] = ok (tags, has_direct)
validate_outbounds tags has_direct (o ∷ outbounds) = do
  require (not (is_empty o.tag)) (codes "outbound tag empty")
  require (not (contains tags o.tag)) (codes "duplicate outbound tag: " ++ o.tag)
  validate_outbounds (o.tag ∷ tags) (has_direct || is_direct o) outbounds

unfoldable pub validate_rules : List Bytes → List RuleConfig → Result (Unit {0})
validate_rules tags [] = ok tt
validate_rules tags (r ∷ rules) = do
  require (contains tags r.outbound_tag) (codes "rule outbound not found: " ++ r.outbound_tag)
  validate_rules tags rules

-- What follows the loop over the outbounds.
unfoldable pub validate_route : RouteConfig → List Bytes × Bool → Result (Unit {0})
validate_route route (tags, has_direct) = do
  require has_direct (codes "at least one direct outbound is required")
  require (is_empty route.default_outbound || contains tags route.default_outbound)
      (codes "default outbound not found: " ++ route.default_outbound)
  validate_rules tags route.rules

unfoldable pub validate : Config → Result (Unit {0})
validate c = do
  validate_inbounds [] c.inbounds
  require (not (is_nil c.inbounds)) (codes "no inbounds configured")
  found ← validate_outbounds [] false c.outbounds
  validate_route c.route found
