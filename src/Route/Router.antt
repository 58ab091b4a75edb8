-- ===== src/Route/Router.antt =====
-- `CompiledRule` and `Router` of src/route/router.cpp: which outbound a request goes to.
pub mod Picking
use shine.Prelude.{
  ℕ, ◌≡◌, ◌≢◌, ◌↔◌, ◌⊎◌, inl, inr, refl, sym, ◌∙◌, ap, List, [], ◌∷◌, ◌++◌, Option, none, some,
  Bool, true, false, not, ◌&&◌, ◌||◌, Bytes, bytes_eq, Result, ok, err, ◌>>=◌, All, if◌then◌else◌,
  Bool-cases, arith,
}
use shine.Transport.Address.{Address, AddressType, ipv4, ipv6, domain_type, is_ip, is_domain}
use shine.Route.Suffix.{ends_with_suffix}
use shine.Route.Parents.{contains}
use shine.Route.Category.{Regexes, SiteCategory, IpCategory, match_site, match_ip}
use shine.Route.Cidr.{Readers, IpRange, contains_ip, parse_cidr}

-- The parts of `SessionRequest` that the rules read, and `RuleConfig`.
pub record Request : Type 0 where
  pub inbound : Bytes
  pub target : Address

pub record RuleConfig : Type 0 where
  pub inbound_tag : Option Bytes
  pub domain_exact : List Bytes
  pub domain_suffix : List Bytes
  pub cidr_texts : List Bytes
  pub geoip : List Bytes
  pub geosite : List Bytes
  pub outbound_tag : Bytes

pub record CompiledRule : Type 0 where
  pub inbound_tag : Option Bytes
  pub domain_exact : List Bytes
  pub domain_suffix : List Bytes
  pub cidrs : List IpRange
  pub geoip : List Bytes
  pub geosite : List Bytes
  pub outbound_tag : Bytes

-- The fields that are copied, and the ranges that were parsed.
abbrev pub rule_with : RuleConfig → List IpRange → CompiledRule
rule_with rc cidrs = record {
  inbound_tag = rc.inbound_tag;
  domain_exact = rc.domain_exact;
  domain_suffix = rc.domain_suffix;
  cidrs = cidrs;
  geoip = rc.geoip;
  geosite = rc.geosite;
  outbound_tag = rc.outbound_tag;
}

abbrev is_nil : {A : Type 0} → List A → Bool
is_nil [] = true
is_nil (x ∷ xs) = false

-- Whether some element passes a test, as the loops with `break` find it.
unfoldable pub any : {A : Type 0} → (A → Bool) → List A → Bool
any test [] = false
any test (x ∷ xs) = test x || any test xs

-- The test of the tag of the inbound.
unfoldable pub inbound_allows : Option Bytes → Bytes → Bool
inbound_allows none tag = true
inbound_allows (some t) tag = bytes_eq t tag

-- `if (!any_rule) return inbound_tag.has_value();`
abbrev pub has_value : {A : Type 0} → Option A → Bool
has_value none = false
has_value (some a) = true

module _ (regexes : Regexes) where
  -- The matchers are there when the configuration names their files.
  pub record Router : Type 0 where
    pub rules : List CompiledRule
    pub default_outbound : Bytes
    pub geo_site : Option (List (Bytes × SiteCategory regexes))
    pub geo_ip : Option (List (Bytes × IpCategory))

  unfoldable pub site_found : Router → Bytes → Bytes → Bool
  site_found router d code = elim router.geo_site [
    | none ↦ false
    | some table ↦ match_site regexes table d code
  ]

  unfoldable pub ip_found : Router → Bytes → Bool → Bytes → Bool
  ip_found router ip v6 code = elim router.geo_ip [
    | none ↦ false
    | some table ↦ match_ip table ip v6 code
  ]

  -- The domain conditions of a rule on a domain, and its address conditions on an address.
  unfoldable pub domain_matches : CompiledRule → Router → Bytes → Bool
  domain_matches rule router d =
      contains rule.domain_exact d
      || (any (ends_with_suffix d) rule.domain_suffix || any (site_found router d) rule.geosite)

  unfoldable pub ip_matches : CompiledRule → Router → Bytes → Bool → Bool
  ip_matches rule router ip v6 =
      any (λ r. contains_ip r ip v6) rule.cidrs || any (ip_found router ip v6) rule.geoip

  abbrev pub has_domain_rule : CompiledRule → Bool
  has_domain_rule rule =
      not (is_nil rule.domain_exact && (is_nil rule.domain_suffix && is_nil rule.geosite))

  abbrev pub has_ip_rule : CompiledRule → Bool
  has_ip_rule rule = not (is_nil rule.cidrs && is_nil rule.geoip)

  -- `any_match`, by the type of the target.
  unfoldable pub target_matches : CompiledRule → Router → AddressType → Address → Bool
  target_matches rule router domain_type a =
      has_domain_rule rule && domain_matches rule router a.domain
  target_matches rule router ipv4 a = has_ip_rule rule && ip_matches rule router a.bytes false
  target_matches rule router ipv6 a = has_ip_rule rule && ip_matches rule router a.bytes true

  unfoldable pub matches : CompiledRule → Request → Router → Bool
  matches rule r router =
      if inbound_allows rule.inbound_tag r.inbound
      then (if has_domain_rule rule || has_ip_rule rule
          then target_matches rule router r.target.type r.target
          else has_value rule.inbound_tag)
      else false

  -- `Router::pick`, with the loop over the rules.
  unfoldable pub pick_from : List CompiledRule → Request → Router → Bytes
  pick_from [] r router = router.default_outbound
  pick_from (rule ∷ rules) r router =
      let rest = pick_from rules r router in
      if matches rule r router then rule.outbound_tag else rest

  unfoldable pub pick : Request → Router → Bytes
  pick r router = pick_from router.rules r router

  -- `Router::compile`, on the matchers that were loaded.
  module _ (readers : Readers) where
    unfoldable pub compile_cidrs : List Bytes → Result (List IpRange)
    compile_cidrs [] = ok []
    compile_cidrs (c ∷ cs) =
        parse_cidr readers c >>= λ r. compile_cidrs cs >>= λ rest. ok (r ∷ rest)

    unfoldable pub compile_rule : RuleConfig → Result CompiledRule
    compile_rule rc = compile_cidrs rc.cidr_texts >>= λ cidrs. ok (rule_with rc cidrs)

    unfoldable pub compile_rules : List RuleConfig → Result (List CompiledRule)
    compile_rules [] = ok []
    compile_rules (rc ∷ rcs) =
        compile_rule rc >>= λ rule. compile_rules rcs >>= λ rest. ok (rule ∷ rest)

    unfoldable pub compile :
        List RuleConfig
        → Bytes
        → Option (List (Bytes × SiteCategory regexes))
        → Option (List (Bytes × IpCategory))
        → Result Router
    compile rules default_outbound geo_site geo_ip = compile_rules rules >>= λ compiled.
        ok (record {
          rules = compiled;
          default_outbound = default_outbound;
          geo_site = geo_site;
          geo_ip = geo_ip;
        })
