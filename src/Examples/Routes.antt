-- ===== src/Examples/Routes.antt =====
-- Routing: suffixes, parent domains, country ranges, networks and rules.
use shine.Prelude.{
  ◌≡◌, ◌↔◌, refl, List, [], ◌∷◌, ◌++◌, some, none, true, Bytes, codes, bytes_eq, ok, pos,
  if◌then◌else◌,
}
use shine.Transport.Address.{from_domain}
use shine.Route.Suffix.{ends_with_suffix, IsAtLabel, ends_with_suffix_iff}
use shine.Route.Geo.{Range, merge, match_ranges}
use shine.Route.Geo.Merging.{any_inside, match_ranges-merge}
use shine.Route.Category.{Regexes}
use shine.Route.Cidr.{Readers, v4}
use shine.Route.Router.{
  Request, RuleConfig, Router, rule_with, compile, compile_rules, compile_rule, compile_cidrs,
}

ends_with_suffix_iff_example :
    (ends_with_suffix (codes "a.b") (codes "b") ≡ true)
    ↔ ((pre : Bytes) × (codes "a.b" ≡ pre ++ codes "b") × IsAtLabel pre 98)
ends_with_suffix_iff_example = ends_with_suffix_iff (codes "a.b") [] 98

abbrev ranges : List Range
ranges = record { start = 10; end = 20 } ∷ record { start = 4; end = 9 } ∷ []

match_ranges-merge_example : match_ranges 12 (merge 32 ranges) ≡ any_inside 12 ranges
match_ranges-merge_example = match_ranges-merge 32 12 ranges

-- Regular expressions that are plain texts, and an address that is read only when it is local.
abbrev texts : Regexes
texts = record { Regex = Bytes; compile = λ t. some t; search = λ d t. bytes_eq d t }

abbrev local_only : Readers
local_only = record {
  make_address =
      λ t. if bytes_eq t (codes "127.0.0.1") then some (v4 (127 ∷ 0 ∷ 0 ∷ 1 ∷ [])) else none;
  simple_atoi_int = λ t. if bytes_eq t (codes "256") then some (pos 256) else none;
}

abbrev suffix_rule : RuleConfig
suffix_rule = record {
  inbound_tag = none;
  domain_exact = [];
  domain_suffix = codes "example.com" ∷ [];
  cidr_texts = [];
  geoip = [];
  geosite = [];
  outbound_tag = codes "proxy";
}

abbrev router : Router texts
router = record {
  rules = rule_with suffix_rule [] ∷ [];
  default_outbound = codes "direct";
  geo_site = none;
  geo_ip = none;
}

abbrev request : Request
request = record { inbound = codes "in"; target = from_domain (codes "www.example.com") 443 }

compiled : compile texts local_only (suffix_rule ∷ []) (codes "direct") none none ≡ ok router
unfolding compile compile_rules compile_rule compile_cidrs
compiled = refl
