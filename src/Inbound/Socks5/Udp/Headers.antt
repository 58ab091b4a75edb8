-- ===== src/Inbound/Socks5/Udp/Headers.antt =====
-- The header that `Socks5UdpStream::sendTo` of src/inbound/socks5_inbound.cpp writes, read by the
-- rules of the same file: it is the binary form of `Address`, which agrees with the form of SOCKS
-- for domains alone.
use shine.Prelude.{
  ℕ, ◌+◌, ◌*◌, ◌%◌, ◌^◌, ◌<◌, ◌≤◌, ◌≡◌, refl, ◌∙◌, ap, [], ◌∷◌, ◌++◌, none, some, Bytes, take, drop,
  length, arith, take-append, take_all, drop_past, length-append, le→ltb_false, get_or-drop,
}
use shine.Transport.Address.{from_ipv4, from_ipv6, from_domain, to_binary}
use shine.Transport.Address.Binary.{port_high, ipv4_text, ipv6_text, domain_text, binary_text}
use shine.Inbound.Socks5.Udp.{datagram, parse_v4, parse_name, parse_body, parse_datagram}

-- A domain of at most 255 bytes and the payload are read back.
pub parse_datagram-domain :
    (payload d : Bytes) (port : ℕ)
    → length d ≤ 255
    → port < 2 ^ 16
    → parse_datagram (datagram payload (from_domain d port)) ≡ some (payload, from_domain d port)
unfolding datagram parse_datagram parse_body parse_name
parse_datagram-domain payload d port short fits =
    let hi = port_high port in
    let lo = port % 256 in
    let whole : take 255 d ≡ d = take_all 255 d short in
    let text : to_binary (from_domain d port) ≡ 3 ∷ length d ∷ (d ++ (hi ∷ lo ∷ [])) =
      domain_text d port ∙ ap (λ x. 3 ∷ length x ∷ (x ++ (hi ∷ lo ∷ []))) whole in
    let buf = 0 ∷ 0 ∷ 0 ∷ 3 ∷ length d ∷ (d ++ (hi ∷ lo ∷ payload)) in
    let shape : datagram payload (from_domain d port) ≡ buf =
      ap (λ x. 0 ∷ 0 ∷ 0 ∷ x) (binary_text _ 3 d hi lo payload text) in
    let sized : length buf ≡ 7 + length d + length payload =
      omega (arith, length-append d (hi ∷ lo ∷ payload)) in
    let at : drop (5 + length d) buf ≡ hi ∷ lo ∷ payload =
      drop_past 5 (5 + length d) buf d (hi ∷ lo ∷ payload) refl refl in
    let behind : drop (5 + length d + 1) buf ≡ lo ∷ payload =
      drop_past (5 + length d) (5 + length d + 1) buf (hi ∷ []) (lo ∷ payload) at refl in
    let last : drop (5 + length d + 2) buf ≡ payload =
      drop_past (5 + length d) (5 + length d + 2) buf (hi ∷ lo ∷ []) payload at refl in
    let number : hi * 256 + lo ≡ port = omega (arith, fits) in
    ap parse_datagram shape
    ∙ rw
        (
          le→ltb_false (length buf) 4 (omega (arith, sized)),
          le→ltb_false (length buf) 5 (omega (arith, sized)),
          le→ltb_false (length buf) (5 + length d + 2) (omega (arith, sized)),
          get_or-drop buf (5 + length d) 0,
          get_or-drop buf (5 + length d + 1) 0,
          at,
          behind,
          last,
          number,
          take-append (length d) d (hi ∷ lo ∷ payload) refl,
        )
        refl

-- An IPv4 target is not: its length byte is read as the first byte of the address, so that the
-- address and the port are each one byte off, and the last byte of the port stands in the payload.
-- The header of an IPv6 target is not accepted at all.
pub parse_datagram-ipv4 :
    (payload b : Bytes) (b0 b1 b2 b3 port : ℕ)
    → length b ≡ 16
    → (parse_datagram (datagram payload (from_ipv4 (b0 ∷ b1 ∷ b2 ∷ b3 ∷ []) port))
        ≡ some
            ((port % 256) ∷ payload, from_ipv4 (4 ∷ b0 ∷ b1 ∷ b2 ∷ []) (b3 * 256 + port_high port)))
      × (parse_datagram (datagram payload (from_ipv6 b port)) ≡ none)
unfolding datagram parse_datagram parse_body parse_v4
parse_datagram-ipv4 payload b b0 b1 b2 b3 port size =
    let hi = port_high port in
    let lo = port % 256 in
    let d = b0 ∷ b1 ∷ b2 ∷ b3 ∷ [] in
    let buf = 0 ∷ 0 ∷ 0 ∷ 1 ∷ 4 ∷ b0 ∷ b1 ∷ b2 ∷ b3 ∷ hi ∷ lo ∷ payload in
    let shape : datagram payload (from_ipv4 d port) ≡ buf =
      ap (λ x. 0 ∷ 0 ∷ 0 ∷ x) (binary_text _ 1 d hi lo payload (ipv4_text d port refl)) in
    let buf6 = 0 ∷ 0 ∷ 0 ∷ 2 ∷ length b ∷ (b ++ (hi ∷ lo ∷ payload)) in
    let shape6 : datagram payload (from_ipv6 b port) ≡ buf6 =
      ap (λ x. 0 ∷ 0 ∷ 0 ∷ x) (binary_text _ 2 b hi lo payload (ipv6_text b port size)) in
    (
      ap parse_datagram shape
          ∙ rw
              (
                le→ltb_false (length buf) 4 (omega arith),
                le→ltb_false (length buf) 10 (omega arith),
              )
              refl,
      ap parse_datagram shape6 ∙ rw (le→ltb_false (length buf6) 4 (omega arith)) refl,
    )
