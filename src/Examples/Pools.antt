-- ===== src/Examples/Pools.antt =====
-- Links, streams and datagrams that are handed on.
use shine.Prelude.{
  ◌+◌, ℕ, ◌≤◌, ◌≡◌, ◌⊎◌, refl, inl, [], ◌∷◌, none, some, true, false, codes, ok, arith, length,
  get_elem?, ◌%◌,
}
use shine.Transport.Address.{from_ipv4, from_domain, domain_type, default_address}
use shine.Transport.Session.{udp}
use shine.Transport.Pipe.{Pipe, here, next, goes, reads, start, opened, after_read}
use shine.Transport.Pipe.Copies.{IsFaithful, Reach-IsFaithful}
use shine.Inbound.Socks5.Udp.{Endpoint}
use shine.Inbound.Shine as ShineInbound
use shine.Inbound.Shine.{
  Datagram, InjectedStream, SessionRequest, Ran, begins, accepts, link_closes, on_session,
}
use shine.Inbound.Shine.Links.{stop_closes_all}
use shine.Inbound.Shine.Injected.{read_all, front, on_session_udp}
use shine.Outbound.Shine as ShineOutbound
use shine.Outbound.Shine.{Outbound, is_closed, live, pick_begin, pick_resume, dialled, picks}
use shine.Outbound.Shine.Pool.{pool_bounded}
use shine.Outbound.Shine.Pool.InTurn.{after_picks, pick_begin_open}
use shine.Outbound.Direct as Direct
use shine.Outbound.Direct.{Cache, serve, Served, none_yet, and_then}
use shine.Outbound.Direct.Cache.{Goes, serve_resolved}

-- A pool for one link, for which two dials answer.
abbrev one_dialled : Outbound
one_dialled = (pick_resume 1 (some 7) (pick_begin ShineOutbound.fresh).1).1

pool_bounded_example : length (pick_resume 1 (some 8) one_dialled).1.pool ≤ 1
pool_bounded_example = pool_bounded (
    ShineOutbound.next
      (ShineOutbound.next (ShineOutbound.next ShineOutbound.here picks) (dialled (some 7)))
      (dialled (some 8)))

abbrev pooled : Outbound
pooled = record { pool = 3 ∷ 4 ∷ 5 ∷ []; rr = 1; stopping = false; closed = 3 ∷ [] }

pick_begin_open_example :
    let links = live pooled.closed pooled.pool in
    ((links ≡ []) × ((pick_begin (after_picks 2 pooled)).0 ≡ none))
    ⊎ ((l : ℕ) × ((pick_begin (after_picks 2 pooled)).0 ≡ some l)
        × (is_closed pooled.closed l ≡ false)
        × (get_elem? links ((pooled.rr + 2) % length links) ≡ some l))
pick_begin_open_example = pick_begin_open 2 pooled (omega arith)

abbrev one_link : ShineInbound.Inbound
one_link = record (ShineInbound.accepted 2 ShineInbound.fresh) { closed = 1 ∷ [] }

stop_closes_all_example : is_closed (ShineInbound.stop one_link).closed 2 ≡ true
unfolding ShineInbound.accepted
stop_closes_all_example = stop_closes_all 2 (link_closes 1 (accepts 2 begins)) (inl refl)

abbrev query : Datagram
query = (codes "q", from_ipv4 (8 ∷ 8 ∷ 8 ∷ 8 ∷ []) 53)

on_session_udp_example :
    (r : SessionRequest) × (s : InjectedStream) × (on_session udp default_address
        (ok query ∷ ok query ∷ [])
      ≡ some r)
    × (r.target ≡ query.1)
    × (r.datagrams ≡ some s)
    × (read_all 5 s ≡ front (ok query ∷ ok query ∷ []))
on_session_udp_example = on_session_udp default_address query (ok query ∷ []) 5 (omega arith)

abbrev dest : Endpoint
dest = record { host = 1 ∷ 2 ∷ 3 ∷ 4 ∷ []; port = 53 }

abbrev first : Direct.Datagram
first = record { now = 0; later = 1; target = from_domain (codes "a.b") 53; resolved = some dest }

abbrev second : Direct.Datagram
second = record { now = 5; later = 6; target = from_domain (codes "a.b") 53; resolved = none }

second_is_domain : second.target.type ≡ domain_type
unfolding from_domain
second_is_domain = refl

serve_resolved_example :
    Goes second (first ∷ []) (serve (serve [] first).1 second).0
    × (length (serve (serve [] first).1 second).1 ≤ 1024)
serve_resolved_example = serve_resolved second (and_then first none_yet) second_is_domain

abbrev half_way : Pipe
half_way = record opened { there = after_read start (ok (codes "hi")) }

Reach-IsFaithful_example : IsFaithful half_way
Reach-IsFaithful_example =
    Reach-IsFaithful (next here (goes (reads (ok (codes "hi")) refl (omega arith))))
