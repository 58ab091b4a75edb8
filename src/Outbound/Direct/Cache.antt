-- ===== src/Outbound/Direct/Cache.antt =====
-- The cache of src/outbound/direct_outbound.cpp.
use shine.Prelude.{
  ℕ, ◌+◌, ◌*◌, ◌^◌, ◌<◌, ◌≤◌, ◌≡◌, ◌⊎◌, inl, inr, refl, List, [], ◌∷◌, Option, none, some, true,
  arith, Bytes, Mem, length, ltb, Bool-cases, bytes_eq_refl,
}
use shine.Route.Category.{find_code}
use shine.Transport.Address.{AddressType, ipv4, ipv6, domain_type, from_domain}
use shine.Inbound.Socks5.Udp.{Endpoint}
use shine.Outbound.Direct.{
  Entry, Cache, assign, remember, Destination, on_resolved, of_found, destination_of, destination,
  Datagram, serve, Served, none_yet, and_then, is_recent,
}
use shine.Outbound.Direct.Entries.{
  remember-Bounded, remember-AllAnswers, AllAnswers, AllAnswers-more, find_code-IsAnswer,
}

-- What is true of a cache, with the datagrams that were served.
abbrev pub IsSound : List Datagram → Cache → Type 0
IsSound ds cache = (length cache ≤ 1024) × AllAnswers ds cache

-- Where a datagram for a domain goes: nowhere, to what its own resolution answers, or to what that of
-- another datagram for the domain has answered in the last 60 seconds.
abbrev pub Goes : Datagram → List Datagram → Option Endpoint → Type 0
Goes d ds none = Unit
Goes d ds (some dest) =
    (d.resolved ≡ some dest)
    ⊎ ((other : Datagram) × Mem other ds
        × (other.target.domain ≡ d.target.domain)
        × (other.resolved ≡ some dest)
        × (d.now < other.later + 60 * 10 ^ 9))

module _ (d : Datagram) (ds : List Datagram) (cache : Cache) (sound : IsSound ds cache) where
  abbrev ServedWell : Destination → Type 0
  ServedWell r = Goes d ds r.0 × IsSound (d ∷ ds) r.1

  kept : IsSound (d ∷ ds) cache
  kept = (sound.0, AllAnswers-more d ds cache sound.1)

  on_resolved-lem :
      (found : Option Entry) (resolved : Option Endpoint)
      → d.resolved ≡ resolved
      → ServedWell (on_resolved d.later d.target.domain found cache resolved)
  unfolding on_resolved
  on_resolved-lem found none e = (tt, kept)
  on_resolved-lem found (some dest) e = (
    inl e,
    (
      remember-Bounded d.target.domain (dest, d.later) found cache sound.0,
      remember-AllAnswers (d ∷ ds) d.target.domain (dest, d.later) found cache kept.1
          (d, inl refl, refl, e, refl),
    ),
  )

  of_found-lem :
      (found : Option Entry)
      → find_code d.target.domain cache ≡ found
      → ServedWell (of_found d.now d.later d.target.domain cache d.resolved found)
  unfolding of_found
  of_found-lem none e = on_resolved-lem none d.resolved refl
  of_found-lem (some entry) e = elim (Bool-cases (is_recent d.now entry)) [
    | inl t ↦
        let (other, m, same, answered, at_time) =
          find_code-IsAnswer ds d.target.domain cache entry sound.1 e in
        let young : d.now < entry.1 + 60 * 10 ^ 9 = ground arith in
        rw t (inr (other, m, same, answered, omega (arith, young, at_time)), kept)
    | inr t ↦ rw t (on_resolved-lem (some entry) d.resolved refl)
  ]

  serve_kept :
      (type : AddressType)
      → IsSound (d ∷ ds) (destination_of type d.now d.later cache d.target d.resolved).1
  unfolding destination_of
  serve_kept ipv4 = kept
  serve_kept ipv6 = kept
  serve_kept domain_type = (of_found-lem (find_code d.target.domain cache) refl).1

  serve_domain :
      (type : AddressType)
      → type ≡ domain_type
      → Goes d ds (destination_of type d.now d.later cache d.target d.resolved).0
  unfolding destination_of
  serve_domain ipv4 e = absurd cc
  serve_domain ipv6 e = absurd cc
  serve_domain domain_type e = (of_found-lem (find_code d.target.domain cache) refl).0

Served-IsSound : {ds : List Datagram} {cache : Cache} → Served ds cache → IsSound ds cache
unfolding serve destination
Served-IsSound none_yet = (omega arith, tt)
Served-IsSound (and_then {ds} {cache} d r) = serve_kept d ds cache (Served-IsSound r) d.target.type

-- After any datagrams, one for a domain goes to an endpoint that a resolution of the same domain has
-- given, for itself or within the last 60 seconds for another one, or nowhere; and the cache never
-- has more than 1024 entries.
pub serve_resolved :
    {ds : List Datagram} {cache : Cache} (d : Datagram)
    → Served ds cache
    → d.target.type ≡ domain_type
    → Goes d ds (serve cache d).0 × (length (serve cache d).1 ≤ 1024)
unfolding serve destination
serve_resolved {ds} {cache} d r e =
    let sound = Served-IsSound r in
    (serve_domain d ds cache sound d.target.type e, (serve_kept d ds cache sound d.target.type).0)

-- A datagram for a domain and port that is resolved, and then one for the same domain and another
-- port within the next 60 seconds: the second goes to the endpoint, the port included, of the first.
pub serve_other_port :
    (name : Bytes) (port other : ℕ) (first later second last : ℕ) (dest : Endpoint)
    (resolved : Option Endpoint)
    → second < later + 60 * 10 ^ 9
    → let cache =
        (serve [] (record {
          now = first;
          later = later;
          target = from_domain name port;
          resolved = some dest;
        })).1 in
      (serve cache (record {
        now = second;
        later = last;
        target = from_domain name other;
        resolved = resolved;
      })).0
      ≡ some dest
unfolding serve destination destination_of of_found on_resolved remember assign find_code
    from_domain
serve_other_port name port other first later second last dest resolved young =
    let recent : ltb second (later + 60 * 10 ^ 9) ≡ true = ground arith in
    rw (bytes_eq_refl name, recent) refl
