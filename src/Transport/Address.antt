-- ===== src/Transport/Address.antt =====
-- `Address` of src/transport/address.cpp: an IPv4 or IPv6 address or a domain, with a port.
pub mod Binary
pub mod Parse
pub mod Text
use shine.Prelude.{
  ℕ, ◌+◌, ◌*◌, ◌/◌, ◌%◌, ◌^◌, ◌<◌, ◌≤◌, [], ◌∷◌, ◌++◌, Bytes, IsBytes, codes, Result, ok, err,
  invalid_argument, ltb, ◌==◌, if◌then◌else◌, not, length, get_or, take, drop, replicate, min, Bool,
  true, false,
}

pub data AddressType : Type 0 where
  ipv4 ipv6 domain_type : AddressType

-- `bytes` has 16 elements, of which IPv4 uses the first 4.
pub record Address : Type 0 where
  pub type : AddressType
  pub bytes : Bytes
  pub domain : Bytes
  pub port : ℕ

-- `Address()`.
abbrev pub default_address : Address
default_address = record { type = domain_type; bytes = replicate 16 0; domain = []; port = 0 }

abbrev pub is_ip : Address → Bool
is_ip a = elim a.type [ domain_type ↦ false | _ ↦ true ]

abbrev pub is_domain : Address → Bool
is_domain a = elim a.type [ domain_type ↦ true | _ ↦ false ]

-- The factories. `b` has 4 bytes in the first and 16 in the second.
unfoldable pub from_ipv4 : Bytes → ℕ → Address
from_ipv4 b port = record { type = ipv4; bytes = b ++ replicate 12 0; domain = []; port = port }

unfoldable pub from_ipv6 : Bytes → ℕ → Address
from_ipv6 b port = record { type = ipv6; bytes = b; domain = []; port = port }

unfoldable pub from_domain : Bytes → ℕ → Address
from_domain d port = record { type = domain_type; bytes = replicate 16 0; domain = d; port = port }

-- The cases of `parseBinary`, on the type byte.
unfoldable pub parse_typed : ℕ → ℕ → Bytes → ℕ → Result Address
parse_typed t len blob port =
    if t == 1
    then (if not (len == 4)
        then err (invalid_argument (codes "bad ipv4 len"))
        else ok (from_ipv4 (take 4 (drop 2 blob)) port))
    else if t == 2
    then (if not (len == 16)
        then err (invalid_argument (codes "bad ipv6 len"))
        else ok (from_ipv6 (take 16 (drop 2 blob)) port))
    else if t == 3
    then (if len == 0
        then err (invalid_argument (codes "empty domain"))
        else ok (from_domain (take len (drop 2 blob)) port))
    else err (invalid_argument (codes "unknown addr type"))

-- `parseBinary`. In the 16 bits of the port the two bytes do not overlap.
unfoldable pub parse_binary : Bytes → Result Address
parse_binary blob =
    let t = get_or blob 0 0 in
    let len = get_or blob 1 0 in
    if ltb (length blob) 4
    then err (invalid_argument (codes "addr blob too short"))
    else if ltb (length blob) (2 + len + 2)
    then err (invalid_argument (codes "addr blob truncated"))
    else parse_typed t len blob (get_or blob (2 + len) 0 * 256 + get_or blob (2 + len + 1) 0)

-- The type byte, and `len` and `p` of `toBinary`.
abbrev pub type_byte : AddressType → ℕ
type_byte ipv4 = 1
type_byte ipv6 = 2
type_byte domain_type = 3

abbrev pub wire_length : AddressType → Address → ℕ
wire_length ipv4 a = 4
wire_length ipv6 a = 16
wire_length domain_type a = min (length a.domain) 255

abbrev pub wire_source : AddressType → Address → Bytes
wire_source ipv4 a = a.bytes
wire_source ipv6 a = a.bytes
wire_source domain_type a = a.domain

unfoldable pub to_binary : Address → Bytes
to_binary a =
    let len = wire_length a.type a in
    type_byte a.type
    ∷ len
    ∷ (take len (wire_source a.type a) ++ ((a.port / 2 ^ 8 % 256) ∷ (a.port % 256) ∷ []))
