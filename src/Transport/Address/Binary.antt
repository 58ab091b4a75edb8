-- ===== src/Transport/Address/Binary.antt =====
-- The binary form of an address, which a NEW or UDP_DATA frame carries: src/transport/address.cpp
-- writes and reads it.
use shine.Prelude.{
  ℕ, ◌+◌, ◌*◌, ◌/◌, ◌%◌, ◌^◌, ◌<◌, ◌≤◌, ◌≡◌, refl, sym, ap, ap₂, ◌∙◌, inl, inr, [], ◌∷◌, ◌++◌,
  arith, Bytes, ok, ltb, Bool-cases, length, take, drop, min, length-append, length-take,
  take-append, append_assoc, get_or-drop, take_all, le→ltb_false, drop_past,
}
use shine.Transport.Address.{
  Address, from_ipv4, from_ipv6, from_domain, parse_typed, parse_binary, to_binary,
}

-- The addresses that have a binary form of their own: those that the factories build from arrays of
-- the right size, and from a domain of 1 to 255 bytes.
pub data HasForm : Address → Type 0 where
  v4 : (b : Bytes) (port : ℕ) → length b ≡ 4 → port < 2 ^ 16 → HasForm (from_ipv4 b port)
  v6 : (b : Bytes) (port : ℕ) → length b ≡ 16 → port < 2 ^ 16 → HasForm (from_ipv6 b port)
  name :
      (d : Bytes) (port : ℕ)
      → 0 < length d
      → length d ≤ 255
      → port < 2 ^ 16
      → HasForm (from_domain d port)

-- What `parseBinary` makes of a type, a length byte, as many bytes and a port.
parse_parts :
    (t : ℕ) (d : Bytes) (hi lo : ℕ) (rest : Bytes)
    → 1 < length d + 1
    → parse_binary (t ∷ length d ∷ (d ++ (hi ∷ lo ∷ rest)))
      ≡ parse_typed t (length d) (t ∷ length d ∷ (d ++ (hi ∷ lo ∷ rest))) (hi * 256 + lo)
unfolding parse_binary
parse_parts t d hi lo rest pos =
    let tail = hi ∷ lo ∷ rest in
    let blob = t ∷ length d ∷ (d ++ tail) in
    let sized : length blob ≡ 4 + length d + length rest = omega (arith, length-append d tail) in
    let at : drop (2 + length d) blob ≡ tail = drop_past 2 (2 + length d) blob d tail refl refl in
    rw
      (
        le→ltb_false (length blob) 4 (omega (arith, sized)),
        le→ltb_false (length blob) (2 + length d + 2) (omega (arith, sized)),
        get_or-drop blob (2 + length d) 0,
        get_or-drop blob (2 + length d + 1) 0,
        at,
        drop_past (2 + length d) (2 + length d + 1) blob (hi ∷ []) (lo ∷ rest) at refl,
      )
      refl

abbrev pub port_high : ℕ → ℕ
port_high port = port / 2 ^ 8 % 256

port_whole : (port : ℕ) → port < 2 ^ 16 → port_high port * 256 + port % 256 ≡ port
port_whole port h = omega arith

-- The text of an address, with what follows it, in the shape that `parse_parts` reads.
pub binary_text :
    (s : Bytes) (t : ℕ) (d : Bytes) (hi lo : ℕ) (rest : Bytes)
    → s ≡ t ∷ length d ∷ (d ++ (hi ∷ lo ∷ []))
    → s ++ rest ≡ t ∷ length d ∷ (d ++ (hi ∷ lo ∷ rest))
binary_text s t d hi lo rest h = ap (λ x. x ++ rest) h ∙ simp append_assoc

pub ipv4_text :
    (b : Bytes) (port : ℕ)
    → length b ≡ 4
    → to_binary (from_ipv4 b port) ≡ 1 ∷ length b ∷ (b ++ (port_high port ∷ (port % 256) ∷ []))
unfolding to_binary from_ipv4
ipv4_text b port h =
    ap₂ (λ n d. 1 ∷ n ∷ (d ++ (port_high port ∷ (port % 256) ∷ []))) (sym h)
      (take-append 4 b (0 ∷ 0 ∷ 0 ∷ 0 ∷ 0 ∷ 0 ∷ 0 ∷ 0 ∷ 0 ∷ 0 ∷ 0 ∷ 0 ∷ []) (sym h))

pub ipv6_text :
    (b : Bytes) (port : ℕ)
    → length b ≡ 16
    → to_binary (from_ipv6 b port) ≡ 2 ∷ length b ∷ (b ++ (port_high port ∷ (port % 256) ∷ []))
unfolding to_binary from_ipv6
ipv6_text b port h =
    ap₂ (λ n d. 2 ∷ n ∷ (d ++ (port_high port ∷ (port % 256) ∷ []))) (sym h)
      (take_all 16 b (omega arith))

-- A domain is cut at 255 bytes.
pub domain_text :
    (d : Bytes) (port : ℕ)
    → to_binary (from_domain d port)
      ≡ 3 ∷ length (take 255 d) ∷ (take 255 d ++ (port_high port ∷ (port % 256) ∷ []))
unfolding to_binary from_domain
domain_text d port = elim (Bool-cases (ltb (length d) 255)) [
  | inl h ↦
      let n : min (length d) 255 ≡ length d = ground arith in
      let whole : take 255 d ≡ d = take_all 255 d (ground arith) in
      rw (n, whole, take_all (length d) d (omega arith)) refl
  | inr h ↦
      let n : min (length d) 255 ≡ 255 = ground arith in
      let m : length (take 255 d) ≡ 255 = ground (arith, length-take 255 d) in rw (n, m) refl
]

pub typed_ipv4 :
    (b rest : Bytes) (port : ℕ)
    → length b ≡ 4
    → parse_typed 1 (length b) (1 ∷ length b ∷ (b ++ rest)) port ≡ ok (from_ipv4 b port)
unfolding parse_typed
typed_ipv4 b rest port h = rw h (ap (λ d. ok (from_ipv4 d port)) (take-append 4 b rest (sym h)))

pub typed_ipv6 :
    (b rest : Bytes) (port : ℕ)
    → length b ≡ 16
    → parse_typed 2 (length b) (2 ∷ length b ∷ (b ++ rest)) port ≡ ok (from_ipv6 b port)
unfolding parse_typed
typed_ipv6 b rest port h = rw h (ap (λ d. ok (from_ipv6 d port)) (take-append 16 b rest (sym h)))

pub typed_domain :
    (d rest : Bytes) (port : ℕ)
    → 0 < length d
    → parse_typed 3 (length d) (3 ∷ length d ∷ (d ++ rest)) port ≡ ok (from_domain d port)
unfolding parse_typed
typed_domain d rest port h = ground (arith, take-append (length d) d rest refl)

-- A domain of at least one byte is read back cut to its first 255 bytes.
pub parse_binary-domain :
    (d : Bytes) (port : ℕ) (rest : Bytes)
    → 0 < length d
    → port < 2 ^ 16
    → parse_binary (to_binary (from_domain d port) ++ rest) ≡ ok (from_domain (take 255 d) port)
parse_binary-domain d port rest pos fits =
    let pos' : 0 < length (take 255 d) = omega (arith, length-take 255 d) in
    ap parse_binary (binary_text _ 3 (take 255 d) _ _ rest (domain_text d port))
    ∙ parse_parts 3 (take 255 d) _ _ rest (omega arith)
    ∙ typed_domain (take 255 d) _ _ pos'
    ∙ ap (λ p. ok (from_domain (take 255 d) p)) (port_whole port fits)

-- An address that has a form is read back from it, whatever follows.
pub parse_binary-to_binary :
    (a : Address) (rest : Bytes) → HasForm a → parse_binary (to_binary a ++ rest) ≡ ok a
parse_binary-to_binary _ rest (v4 b port size fits) =
    ap parse_binary (binary_text _ 1 b _ _ rest (ipv4_text b port size))
    ∙ parse_parts 1 b _ _ rest (omega arith)
    ∙ typed_ipv4 b _ _ size
    ∙ ap (λ p. ok (from_ipv4 b p)) (port_whole port fits)
parse_binary-to_binary _ rest (v6 b port size fits) =
    ap parse_binary (binary_text _ 2 b _ _ rest (ipv6_text b port size))
    ∙ parse_parts 2 b _ _ rest (omega arith)
    ∙ typed_ipv6 b _ _ size
    ∙ ap (λ p. ok (from_ipv6 b p)) (port_whole port fits)
parse_binary-to_binary _ rest (name d port pos short fits) =
    parse_binary-domain d port rest pos fits
    ∙ ap (λ x. ok (from_domain x port)) (take_all 255 d short)
