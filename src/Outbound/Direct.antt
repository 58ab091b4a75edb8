-- ===== src/Outbound/Direct.antt =====
-- `DirectOutbound::handleUdp` of src/outbound/direct_outbound.cpp: where a datagram goes, and the
-- cache of resolved domains. Times are in nanoseconds.
pub mod Entries
pub mod Cache
use shine.Prelude.{
  ℕ, ◌+◌, ◌*◌, ◌^◌, List, [], ◌∷◌, ◌++◌, Option, none, some, ◌||◌, Bool, true, false, Bytes, take,
  length, ltb, bytes_eq, if◌then◌else◌,
}
use shine.Route.Category.{find_code}
use shine.Transport.Address.{Address, AddressType, ipv4, ipv6, domain_type}
use shine.Inbound.Socks5.Udp.{Endpoint}

-- What is known of a domain: an endpoint, and when it was entered.
abbrev pub Entry : Type 0
Entry = Endpoint × ℕ

abbrev pub Cache : Type 0
Cache = List (Bytes × Entry)

-- `absl::Now() - it->second.second < absl::Seconds(60)`.
abbrev pub is_recent : ℕ → Entry → Bool
is_recent now entry = ltb now (entry.1 + 60 * 10 ^ 9)

-- `it->second = …` on the entry of a domain that is there.
unfoldable pub overwrite : Bytes → Entry → Cache → Cache
overwrite domain entry [] = []
overwrite domain entry ((d, old) ∷ cache) =
    let rest = overwrite domain entry cache in
    if bytes_eq d domain then (d, entry) ∷ cache else (d, old) ∷ rest

-- `cache[t.domain()] = …`
unfoldable pub assign : Bytes → Entry → Option Entry → Cache → Cache
assign domain entry none cache = (domain, entry) ∷ cache
assign domain entry (some old) cache = overwrite domain entry cache

-- What becomes of the cache when a domain was resolved; `found` is what `find` answered.
unfoldable pub remember : Bytes → Entry → Option Entry → Cache → Cache
remember domain entry found cache =
    if ltb (length cache) 1024
    then assign domain entry found cache
    else (elim found [ none ↦ cache | some old ↦ overwrite domain entry cache ])

-- The endpoint of a datagram, `none` where it is passed over, and the cache behind it.
abbrev pub Destination : Type 0
Destination = Option Endpoint × Cache

-- `now` and `later` are what the two calls of `absl::Now` answer.
unfoldable pub on_resolved : ℕ → Bytes → Option Entry → Cache → Option Endpoint → Destination
on_resolved later domain found cache none = (none, cache)
on_resolved later domain found cache (some dest) =
    (some dest, remember domain (dest, later) found cache)

unfoldable pub of_found : ℕ → ℕ → Bytes → Cache → Option Endpoint → Option Entry → Destination
of_found now later domain cache resolved none = on_resolved later domain none cache resolved
of_found now later domain cache resolved (some entry) =
    if is_recent now entry
    then (some entry.0, cache)
    else on_resolved later domain (some entry) cache resolved

-- `resolved` is what `resolveOne` answers for the target, if it is asked.
unfoldable pub destination_of :
    AddressType → ℕ → ℕ → Cache → Address → Option Endpoint → Destination
destination_of ipv4 now later cache t resolved =
    (some (record { host = take 4 t.bytes; port = t.port }), cache)
destination_of ipv6 now later cache t resolved =
    (some (record { host = t.bytes; port = t.port }), cache)
destination_of domain_type now later cache t resolved =
    of_found now later t.domain cache resolved (find_code t.domain cache)

unfoldable pub destination : ℕ → ℕ → Cache → Address → Option Endpoint → Destination
destination now later cache t resolved = destination_of t.type now later cache t resolved

-- A datagram of the client: the two times, the target, and what its resolution answers.
pub record Datagram : Type 0 where
  pub now : ℕ
  pub later : ℕ
  pub target : Address
  pub resolved : Option Endpoint

unfoldable pub serve : Cache → Datagram → Destination
serve cache d = destination d.now d.later cache d.target d.resolved

-- The caches that the loop of `read_client` comes to, with the datagrams behind it, the last one
-- first.
pub data Served : List Datagram → Cache → Type 0 where
  none_yet : Served [] []
  and_then :
      {ds : List Datagram} {cache : Cache} (d : Datagram)
      → Served ds cache
      → Served (d ∷ ds) (serve cache d).1
