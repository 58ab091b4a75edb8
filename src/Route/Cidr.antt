-- ===== src/Route/Cidr.antt =====
-- `parseCidr`, `bitsEqual` and `IpRange` of src/route/router.cpp.
use Prim.Native.Nat.{bit_and, bit_xor}
use shine.Prelude.{
  ℕ, ◌-◌, ◌*◌, ◌/◌, ◌%◌, ◌^◌, ◌≡◌, refl, [], ◌∷◌, ◌++◌, Option, none, some, Bool, true, false,
  Bytes, bytes_eq, codes, Result, ok, err, ◌>>=◌, invalid_argument, take, get_or, replicate, ltb,
  ◌==◌, if◌then◌else◌, ℤ, pos, negsuc,
}

-- What Boost.Asio and Abseil answer: an address as 4 or 16 bytes, or none; a number in an `int`.
pub data IpBytes : Type 0 where
  v4 v6 : Bytes → IpBytes

pub record Readers : Type 0 where
  pub make_address : Bytes → Option IpBytes
  pub simple_atoi_int : Bytes → Option ℤ

pub record IpRange : Type 0 where
  pub net : Bytes
  pub prefix_len : ℕ
  pub is_v6 : Bool

unfoldable pub bits_equal : Bytes → Bytes → ℕ → Bool
bits_equal a b prefix =
    let full = prefix / 8 in
    let rem = prefix % 8 in
    if bytes_eq (take full a) (take full b)
    then (if rem == 0
        then true
        else (let mask = 0xFF * 2 ^ (8 - rem) % 256 in
            bit_and (bit_xor (get_or a full 0) (get_or b full 0)) mask == 0))
    else false

unfoldable pub contains_ip : IpRange → Bytes → Bool → Bool
contains_ip r addr true = if r.is_v6 then bits_equal r.net addr r.prefix_len else false
contains_ip r addr false = if r.is_v6 then false else bits_equal r.net addr r.prefix_len

-- `s.find('/')`: the text in front of the first slash and the text behind it.
unfoldable pub split_slash : Bytes → Bytes × Option Bytes
split_slash [] = ([], none)
split_slash (c ∷ s) =
    let rest = split_slash s in if c == b'/' then ([], some s) else (c ∷ rest.0, rest.1)

-- `prefix < 0 ? all : static_cast<u8>(prefix)`.
unfoldable pub prefix_of : ℕ → ℤ → ℕ
prefix_of all (pos n) = n % 256
prefix_of all (negsuc n) = all

-- The range, and the test of its prefix.
unfoldable pub checked_range : Bytes → ℕ → Bool → ℕ → Bytes → Result IpRange
checked_range net prefix_len is_v6 limit message =
    if ltb limit prefix_len
    then err (invalid_argument message)
    else ok (record { net = net; prefix_len = prefix_len; is_v6 = is_v6 })

unfoldable pub range_of_address : Bytes → ℤ → Option IpBytes → Result IpRange
range_of_address host prefix none = err (invalid_argument (codes "bad ip: " ++ host))
range_of_address host prefix (some (v4 b)) =
    checked_range (b ++ replicate 12 0) (prefix_of 32 prefix) false 32 (codes "ipv4 prefix > 32")
range_of_address host prefix (some (v6 b)) =
    checked_range b (prefix_of 128 prefix) true 128 (codes "ipv6 prefix > 128")

unfoldable pub number_of : Option ℤ → Result ℤ
number_of none = err (invalid_argument (codes "bad cidr prefix"))
number_of (some n) = ok n

module _ (readers : Readers) where
  -- The text behind the slash; -1 where there is none.
  unfoldable pub read_prefix : Option Bytes → Result ℤ
  read_prefix none = ok (negsuc 0)
  read_prefix (some s) = number_of (readers.simple_atoi_int s)

  unfoldable pub parse_cidr : Bytes → Result IpRange
  parse_cidr s =
      let (host, behind) = split_slash s in
      read_prefix behind >>= λ prefix. range_of_address host prefix (readers.make_address host)

-- A prefix of 256 on an IPv4 host is not refused: it is cut to 0 before the test, and the range
-- contains every IPv4 address.
pub parse_cidr_wraps :
    (readers : Readers) (host digits b addr : Bytes)
    → split_slash (host ++ (b'/' ∷ digits)) ≡ (host, some digits)
    → readers.simple_atoi_int digits ≡ some (pos 256)
    → readers.make_address host ≡ some (v4 b)
    → (r : IpRange) × (parse_cidr readers (host ++ (b'/' ∷ digits)) ≡ ok r)
      × (contains_ip r addr false ≡ true)
unfolding parse_cidr read_prefix number_of range_of_address checked_range prefix_of contains_ip
    bits_equal
parse_cidr_wraps readers host digits b addr s n a =
    (record { net = b ++ replicate 12 0; prefix_len = 0; is_v6 = false }, rw (s, n, a) refl, refl)
