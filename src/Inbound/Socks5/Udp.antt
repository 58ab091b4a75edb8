-- ===== src/Inbound/Socks5/Udp.antt =====
-- `Socks5UdpStream` of src/inbound/socks5_inbound.cpp: the datagrams of a UDP association, whose
-- header goes in front of the payload.
pub mod Headers
use shine.Prelude.{
  ℕ, ◌+◌, ◌*◌, ◌<◌, ◌≡◌, ◌≢◌, refl, sym, ◌∙◌, ap, ap₂, subst, inl, inr, List, [], ◌∷◌, ◌++◌, Option,
  none, some, Bool, true, false, not, ◌&&◌, ◌||◌, Bytes, Mem, bytes_eq, bytes_eq_sound, get_or,
  take, drop, length, ltb, ◌==◌, ==_iff, if◌then◌else◌, Bool-cases, arith,
}
use shine.Transport.Address.{Address, from_ipv4, from_ipv6, from_domain, to_binary}
use shine.Inbound.Socks5.{port_at}

-- `sendTo`: the datagram for the client.
unfoldable pub datagram : Bytes → Address → Bytes
datagram payload target = 0 ∷ 0 ∷ 0 ∷ (to_binary target ++ payload)

-- The address and the payload behind the type byte at 3, where the datagram is long enough.
unfoldable pub parse_v4 : Bytes → Option (Bytes × Address)
parse_v4 buf =
    if ltb (length buf) (4 + 4 + 2)
    then none
    else some (drop 10 buf, from_ipv4 (take 4 (drop 4 buf)) (port_at 8 buf))

unfoldable pub parse_name : ℕ → Bytes → Option (Bytes × Address)
parse_name dlen buf =
    if ltb (length buf) (5 + dlen + 2)
    then none
    else some
        (drop (5 + dlen + 2) buf, from_domain (take dlen (drop 5 buf)) (port_at (5 + dlen) buf))

unfoldable pub parse_v6 : Bytes → Option (Bytes × Address)
parse_v6 buf =
    if ltb (length buf) (4 + 16 + 2)
    then none
    else some (drop 22 buf, from_ipv6 (take 16 (drop 4 buf)) (port_at 20 buf))

unfoldable pub parse_body : ℕ → Bytes → Option (Bytes × Address)
parse_body atyp buf =
    if atyp == 1
    then parse_v4 buf
    else if atyp == 3
    then (if ltb (length buf) 5 then none else parse_name (get_or buf 4 0) buf)
    else if atyp == 4
    then parse_v6 buf
    else none

abbrev pub has_zeros : Bytes → Bool
has_zeros buf = (get_or buf 0 0 == 0) && ((get_or buf 1 0 == 0) && (get_or buf 2 0 == 0))

-- What `receiveFrom` makes of a datagram, `none` where it goes on to the next.
unfoldable pub parse_datagram : Bytes → Option (Bytes × Address)
parse_datagram buf =
    if ltb (length buf) 4
    then none
    else if has_zeros buf
    then parse_body (get_or buf 3 0) buf
    else none

-- An endpoint; port 0 means that the client is not known yet.
pub record Endpoint : Type 0 where
  pub host : Bytes
  pub port : ℕ

unfoldable pub same_endpoint : Endpoint → Endpoint → Bool
same_endpoint a b = bytes_eq a.host b.host && (a.port == b.port)

-- The client after a datagram of `sender`, and whether the datagram is looked at.
unfoldable pub admit : Endpoint → Endpoint → Endpoint × Bool
admit client sender =
    if client.port == 0 then (sender, true) else (client, same_endpoint sender client)

abbrev pub Arrivals : Type 0
Arrivals = List (Endpoint × Bytes)

-- The client, and the first payload that is accepted with the datagrams behind it.
abbrev pub Received : Type 0
Received = Endpoint × Option ((Bytes × Address) × Arrivals)

-- `continue`, or the return.
unfoldable pub or_next : Endpoint → Arrivals → Received → Option (Bytes × Address) → Received
or_next client arrivals later none = later
or_next client arrivals later (some m) = (client, some (m, arrivals))

abbrev pub looked_at : Bool → Bytes → Option (Bytes × Address)
looked_at true buf = parse_datagram buf
looked_at false buf = none

-- `receiveFrom` over the datagrams that arrive.
unfoldable pub receive_from : Endpoint → Arrivals → Received
receive_from client [] = (client, none)
receive_from client ((sender, buf) ∷ arrivals) =
    let r = admit client sender in
    let later = receive_from r.0 arrivals in or_next r.0 arrivals later (looked_at r.1 buf)

-- What a run says of the datagrams, where the client is known.
abbrev FromClient : Endpoint → Arrivals → Received → Type 0
FromClient client arrivals (next, none) = next ≡ client
FromClient client arrivals (next, some (m, rest)) =
    (next ≡ client) × ((buf : Bytes) × Mem (client, buf) arrivals × (parse_datagram buf ≡ some m))

same_endpoint_sound : (a b : Endpoint) → same_endpoint a b ≡ true → a ≡ b
unfolding same_endpoint
same_endpoint_sound a b h =
    let host : bytes_eq a.host b.host ≡ true = ground arith in
    let port : a.port ≡ b.port = ground arith in
    ap₂ (λ x y. endpoint x y) (bytes_eq_sound a.host b.host host) port
  where
    endpoint : Bytes → ℕ → Endpoint
    endpoint x y = record { host = x; port = y }

FromClient-later :
    (client : Endpoint) (p : Endpoint × Bytes) (arrivals : Arrivals) (r : Received)
    → FromClient client arrivals r
    → FromClient client (p ∷ arrivals) r
FromClient-later client p arrivals (next, none) h = h
FromClient-later client p arrivals (next, some (m, rest)) (same, (buf, at, e)) =
    (same, (buf, inr at, e))

FromClient-now :
    (client : Endpoint) (buf : Bytes) (arrivals : Arrivals) (later : Received)
    (o : Option (Bytes × Address))
    → parse_datagram buf ≡ o
    → FromClient client arrivals later
    → FromClient client ((client, buf) ∷ arrivals) (or_next client arrivals later o)
unfolding or_next
FromClient-now client buf arrivals later none e h =
    FromClient-later client (client, buf) arrivals later h
FromClient-now client buf arrivals later (some m) e h = (refl, (buf, inl refl, e))

receive_from-FromClient :
    (client : Endpoint) (arrivals : Arrivals)
    → 0 < client.port
    → FromClient client arrivals (receive_from client arrivals)
unfolding receive_from admit or_next
receive_from-FromClient client [] known = refl
receive_from-FromClient client ((sender, buf) ∷ arrivals) known =
    let later = receive_from-FromClient client arrivals known in
    let set : (client.port == 0) ≡ false = ground arith in
    elim (Bool-cases (same_endpoint sender client)) [
      | inl e ↦
          rw (set, e)
            (subst
              (λ x.
                FromClient client ((x, buf) ∷ arrivals)
                  (or_next client arrivals (receive_from client arrivals) (parse_datagram buf)))
              (sym (same_endpoint_sound sender client e))
              (FromClient-now client buf arrivals (receive_from client arrivals)
                (parse_datagram buf) refl later))
      | inr e ↦
          rw (set, e)
            (FromClient-later client (sender, buf) arrivals (receive_from client arrivals) later)
    ]

-- Once the client of an association is known, every payload that is received comes from a datagram
-- of that client, and the client stays the same.
pub receive_from_known :
    (client next : Endpoint) (arrivals rest : Arrivals) (m : Bytes × Address)
    → 0 < client.port
    → receive_from client arrivals ≡ (next, some (m, rest))
    → (next ≡ client) × ((buf : Bytes) × Mem (client, buf) arrivals × (parse_datagram buf ≡ some m))
receive_from_known client next arrivals rest m known h =
    subst (FromClient client arrivals) h (receive_from-FromClient client arrivals known)
