-- ===== src/Transport/Address/Text.antt =====
-- `Address::parseHostPort` and `toString` of src/transport/address.cpp: addresses as text.
pub mod RoundTrip
use shine.Prelude.{
  ℕ, ◌^◌, ◌≤◌, ◌<◌, ◌≡◌, ◌≢◌, List, [], ◌∷◌, ◌++◌, Option, none, some, Bool, true, false, ◌&&◌,
  Bytes, All, codes, Result, ok, err, invalid_argument, ltb, leb, ◌==◌, if◌then◌else◌, length, take,
  get_or, ℤ, pos, negsuc,
}
use shine.Absl.{Absl, IsDigit}
use shine.Transport.Address.{
  Address, AddressType, ipv4, ipv6, domain_type, from_ipv4, from_ipv6, from_domain,
}

-- What the program takes from Abseil and Boost to read and print addresses.
pub record TextLib : Type 0 where
  -- `absl::SimpleAtoi` into an `int`.
  pub simple_atoi_int : Bytes → Option ℤ
  -- `absl::StrSplit` at a character.
  pub str_split : ℕ → Bytes → List Bytes
  -- `make_address_v6(s, ec)` with `to_bytes`, `none` for an error; and `to_string`.
  pub make_address_v6 : Bytes → Option Bytes
  pub v6_to_string : Bytes → Bytes

-- The texts with a character between each two.
abbrev pub join : ℕ → List Bytes → Bytes
join c [] = []
join c (p ∷ []) = p
join c (p ∷ q ∷ parts) = p ++ (c ∷ join c (q ∷ parts))

abbrev pub Lacks : ℕ → Bytes → Type 0
Lacks c s = All (λ b. b ≢ c) s

-- The documented behaviour that the program relies on: what `StrCat` prints is read back where it
-- fits, texts that lack a character are split where it stands between them, and an IPv6 address is
-- printed without brackets and read back.
pub record IsReliable (absl : Absl) (lib : TextLib) : Type 0 where
  pub simple_atoi_int-str_cat :
      (n : ℕ) → n < 2 ^ 31 → lib.simple_atoi_int (absl.str_cat n) ≡ some (pos n)
  pub str_split-join :
      (c : ℕ) (p : Bytes) (parts : List Bytes)
      → All (Lacks c) (p ∷ parts)
      → lib.str_split c (join c (p ∷ parts)) ≡ p ∷ parts
  pub make_address_v6-v6_to_string :
      (b : Bytes) → length b ≡ 16 → lib.make_address_v6 (lib.v6_to_string b) ≡ some b
  pub v6_to_string-Lacks : (b : Bytes) → Lacks b']' (lib.v6_to_string b)

abbrev in_front : ℕ → Option (Bytes × Bytes) → Option (Bytes × Bytes)
in_front b none = none
in_front b (some (before, behind)) = some (b ∷ before, behind)

-- What stands before and behind the first `c`, and the last one (`find`, `rfind` and `substr`).
unfoldable pub split_first : ℕ → Bytes → Option (Bytes × Bytes)
split_first c [] = none
split_first c (b ∷ s) =
    let rest = in_front b (split_first c s) in if b == c then some ([], s) else rest

abbrev or_here : ℕ → ℕ → Bytes → Option (Bytes × Bytes) → Option (Bytes × Bytes)
or_here c b s none = if b == c then some ([], s) else none
or_here c b s (some (before, behind)) = some (b ∷ before, behind)

unfoldable pub split_last : ℕ → Bytes → Option (Bytes × Bytes)
split_last c [] = none
split_last c (b ∷ s) = or_here c b s (split_last c s)

-- A number from `low` to `high`.
abbrev pub number_in : ℕ → ℕ → Option ℤ → Option ℕ
number_in low high none = none
number_in low high (some (negsuc n)) = none
number_in low high (some (pos n)) = if leb low n && leb n high then some n else none

-- `parseIPv4` on the parts.
abbrev add_octet : Option ℕ → Option Bytes → Option Bytes
add_octet none rest = none
add_octet (some v) none = none
add_octet (some v) (some octets) = some (v ∷ octets)

module _ (lib : TextLib) where
  unfoldable pub octets : List Bytes → Option Bytes
  octets [] = some []
  octets (p ∷ parts) = add_octet (number_in 0 255 (lib.simple_atoi_int p)) (octets parts)

  unfoldable pub parse_ipv4 : Bytes → Option Bytes
  parse_ipv4 s =
      let parts = lib.str_split b'.' s in if length parts == 4 then octets parts else none

  -- The port, and the host that was told apart.
  unfoldable pub host_v6 : Option Bytes → ℕ → Result Address
  host_v6 none port = err (invalid_argument (codes "bad ipv6"))
  host_v6 (some b) port = ok (from_ipv6 b port)

  unfoldable pub host_v4 : Option Bytes → Bytes → ℕ → Result Address
  host_v4 none host port = ok (from_domain host port)
  host_v4 (some b) host port = ok (from_ipv4 b port)

  unfoldable pub with_port : Option ℕ → (ℕ → Result Address) → Result Address
  with_port none k = err (invalid_argument (codes "bad port"))
  with_port (some port) k = k port

  -- What follows the `[`, split at the `]`.
  unfoldable pub bracketed : Option (Bytes × Bytes) → Result Address
  bracketed none = err (invalid_argument (codes "missing ]"))
  bracketed (some (host, [])) = err (invalid_argument (codes "missing :port"))
  bracketed (some (host, b ∷ port_s)) =
      if b == b':'
      then with_port (number_in 1 65535 (lib.simple_atoi_int port_s))
          (host_v6 (lib.make_address_v6 host))
      else err (invalid_argument (codes "missing :port"))

  -- The text, split at the last colon.
  unfoldable pub unbracketed : Option (Bytes × Bytes) → Result Address
  unbracketed none = err (invalid_argument (codes "missing :port"))
  unbracketed (some (host, port_s)) =
      with_port (number_in 1 65535 (lib.simple_atoi_int port_s)) (host_v4 (parse_ipv4 host) host)

  unfoldable pub parse_host_port : Bytes → Result Address
  parse_host_port [] = err (invalid_argument (codes "empty address"))
  parse_host_port (b ∷ s) =
      if b == b'[' then bracketed (split_first b']' s) else unbracketed (split_last b':' (b ∷ s))

module _ (absl : Absl) (lib : TextLib) where
  unfoldable pub host_text : AddressType → Address → Bytes
  host_text ipv4 a = join b'.' (
      absl.str_cat (get_or a.bytes 0 0)
      ∷ absl.str_cat (get_or a.bytes 1 0)
      ∷ absl.str_cat (get_or a.bytes 2 0)
      ∷ absl.str_cat (get_or a.bytes 3 0)
      ∷ [])
  host_text ipv6 a = codes "[" ++ (lib.v6_to_string a.bytes ++ codes "]")
  host_text domain_type a = a.domain

  unfoldable pub to_string : Address → Bytes
  to_string a = host_text a.type a ++ (codes ":" ++ absl.str_cat a.port)
