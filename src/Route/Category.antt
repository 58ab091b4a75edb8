-- ===== src/Route/Category.antt =====
-- `GeoSiteMatcher` and `GeoIpMatcher` of src/route/geo_matcher.cpp: loading of the parsed messages
-- and the match by country code. The hash maps are association lists. The protobuf messages and the
-- regular expressions are arguments.
use shine.Prelude.{
  ℕ, ◌+◌, List, [], ◌∷◌, ◌++◌, Option, none, some, Bool, false, ◌&&◌, ◌||◌, Bytes, bytes_eq, length,
  leb, ◌==◌, if◌then◌else◌, map,
}
use shine.Proto.Words.{fold_be}
use shine.Route.Geo.{Range, range_of, to_word, merge, match_ranges}
use shine.Route.Parents.{contains, suffix_match}
use shine.Prelude.{take}

-- `std::regex`: none where the constructor throws.
pub record Regexes : Type 1 where
  pub Regex : Type 0
  pub compile : Bytes → Option Regex
  pub search : Bytes → Regex → Bool

-- `::tolower` on the bytes of a code.
abbrev pub lower : ℕ → ℕ
lower c = if leb b'A' c && leb c b'Z' then c + 32 else c

-- `categories_[code]`, which makes an empty entry where there is none, then an update of the entry;
-- and `categories_.find`.
unfoldable pub at_code : {A : Type 0} → A → Bytes → (A → A) → List (Bytes × A) → List (Bytes × A)
at_code empty code f [] = (code, f empty) ∷ []
at_code empty code f ((key, a) ∷ table) =
    let rest = at_code empty code f table in
    if bytes_eq key code then (key, f a) ∷ table else (key, a) ∷ rest

unfoldable pub find_code : {A : Type 0} → Bytes → List (Bytes × A) → Option A
find_code code [] = none
find_code code ((key, a) ∷ table) =
    let rest = find_code code table in if bytes_eq key code then some a else rest

pub data DomainType : Type 0 where
  full root_domain regex plain other_type : DomainType

module _ (regexes : Regexes) where
  pub record SiteCategory : Type 0 where
    pub exact : List Bytes
    pub suffix : List Bytes
    pub regexes_of : List regexes.Regex

  abbrev pub empty_site : SiteCategory
  empty_site = record { exact = []; suffix = []; regexes_of = [] }

  unfoldable pub add_regex : Option regexes.Regex → SiteCategory → SiteCategory
  add_regex none cat = cat
  add_regex (some r) cat = record cat { regexes_of = cat.regexes_of ++ (r ∷ []) }

  unfoldable pub add_domain : DomainType → Bytes → SiteCategory → SiteCategory
  add_domain full value cat = record cat { exact = value ∷ cat.exact }
  add_domain root_domain value cat = record cat { suffix = value ∷ cat.suffix }
  add_domain regex value cat = add_regex (regexes.compile value) cat
  add_domain plain value cat = add_regex (regexes.compile value) cat
  add_domain other_type value cat = cat

  unfoldable pub add_domains : List (DomainType × Bytes) → SiteCategory → SiteCategory
  add_domains [] cat = cat
  add_domains ((type, value) ∷ ds) cat = add_domains ds (add_domain type value cat)

  -- `GeoSiteMatcher::load` on the parsed list.
  unfoldable pub load_sites :
      List (Bytes × List (DomainType × Bytes))
      → List (Bytes × SiteCategory)
      → List (Bytes × SiteCategory)
  load_sites [] categories = categories
  load_sites ((code, domains) ∷ sites) categories =
      load_sites sites (at_code empty_site (map lower code) (add_domains domains) categories)

  unfoldable pub any_regex : Bytes → List regexes.Regex → Bool
  any_regex domain [] = false
  any_regex domain (r ∷ rs) = regexes.search domain r || any_regex domain rs

  unfoldable pub site_matches : Bytes → SiteCategory → Bool
  site_matches domain cat =
      contains cat.exact domain
      || (suffix_match cat.suffix domain || any_regex domain cat.regexes_of)

  -- `GeoSiteMatcher::match`.
  unfoldable pub match_site : List (Bytes × SiteCategory) → Bytes → Bytes → Bool
  match_site categories domain code = elim (find_code code categories) [
    | none ↦ false
    | some cat ↦ site_matches domain cat
  ]

pub record IpCategory : Type 0 where
  pub v4 : List Range
  pub v6 : List Range

abbrev pub empty_ip : IpCategory
empty_ip = record { v4 = []; v6 = [] }

-- A network of a country: the bytes of its address, and the prefix.
unfoldable pub add_cidr : Bytes → ℕ → IpCategory → IpCategory
add_cidr ip prefix cat =
    if length ip == 4
    then record cat { v4 = cat.v4 ++ (range_of 32 (to_word 4 ip) prefix ∷ []) }
    else (if length ip == 16
        then record cat { v6 = cat.v6 ++ (range_of 128 (to_word 16 ip) prefix ∷ []) }
        else cat)

unfoldable pub add_cidrs : List (Bytes × ℕ) → IpCategory → IpCategory
add_cidrs [] cat = cat
add_cidrs ((ip, prefix) ∷ nets) cat = add_cidrs nets (add_cidr ip prefix cat)

unfoldable pub add_countries :
    List (Bytes × List (Bytes × ℕ)) → List (Bytes × IpCategory) → List (Bytes × IpCategory)
add_countries [] categories = categories
add_countries ((code, nets) ∷ entries) categories =
    add_countries entries (at_code empty_ip (map lower code) (add_cidrs nets) categories)

unfoldable pub merge_all : List (Bytes × IpCategory) → List (Bytes × IpCategory)
merge_all [] = []
merge_all ((code, cat) ∷ table) =
    (code, record { v4 = merge 32 cat.v4; v6 = merge 128 cat.v6 }) ∷ merge_all table

-- `GeoIpMatcher::load` on the parsed list, and `GeoIpMatcher::match`.
unfoldable pub load_ips :
    List (Bytes × List (Bytes × ℕ)) → List (Bytes × IpCategory) → List (Bytes × IpCategory)
load_ips entries categories = merge_all (add_countries entries categories)

unfoldable pub ip_matches : Bytes → Bool → IpCategory → Bool
ip_matches ip is_v6 cat =
    if is_v6
    then match_ranges (fold_be 0 (take 16 ip)) cat.v6
    else match_ranges (fold_be 0 (take 4 ip)) cat.v4

unfoldable pub match_ip : List (Bytes × IpCategory) → Bytes → Bool → Bytes → Bool
match_ip categories ip is_v6 code = elim (find_code code categories) [
  | none ↦ false
  | some cat ↦ ip_matches ip is_v6 cat
]
