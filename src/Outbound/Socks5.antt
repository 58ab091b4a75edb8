-- ===== src/Outbound/Socks5.antt =====
-- `Socks5Outbound::handle` of src/outbound/socks5_outbound.cpp, on the connection to the server, up
-- to the copying of the two streams. `broken` is the text of an error of the connection.
pub mod Exchange
use shine.Prelude.{
  ℕ, ◌+◌, ◌/◌, ◌%◌, ◌^◌, List, [], ◌∷◌, ◌++◌, Bool, true, false, not, Bytes, codes, get_or, take,
  length, min, Status, unavailable, unauthenticated, ◌==◌, if◌then◌else◌,
}
use shine.Socket.{Io, Conn, ◌>>=◌, ◌>>◌, pure, stop, guard, read_exact, write_all}
use shine.Transport.Address.{Address, AddressType, ipv4, ipv6, domain_type}
use shine.Inbound.Socks5.{Account, is_empty}

-- The first `glen` bytes of `greet`.
unfoldable pub greeting : Account → Bytes
greeting cfg = take (if not (is_empty cfg.user) then 4 else 3) (0x05 ∷ 0x02 ∷ 0x00 ∷ 0x02 ∷ [])

-- The account; a length is cut to eight bits.
unfoldable pub account_text : Account → Bytes
account_text cfg =
    0x01 ∷ (length cfg.user % 256) ∷ (cfg.user ++ ((length cfg.pass % 256) ∷ cfg.pass))

unfoldable pub send_account : Bytes → Account → Io Status (Unit {0})
send_account broken cfg = do
  write_all (unavailable broken) (account_text cfg)
  answer ← read_exact (unavailable broken) 2
  guard (get_or answer 1 0 == 0) (unauthenticated (codes "socks5 auth failed"))

unfoldable pub account_if : Bool → Bytes → Account → Io Status (Unit {0})
account_if true broken cfg = send_account broken cfg
account_if false broken cfg = pure tt

-- The address in the request, by its type. A domain is written whole.
unfoldable pub target_text : AddressType → Address → Bytes
target_text ipv4 a = 0x01 ∷ take 4 a.bytes
target_text ipv6 a = 0x04 ∷ a.bytes
target_text domain_type a = 0x03 ∷ min 255 (length a.domain) ∷ a.domain

unfoldable pub request_text : Address → Bytes
request_text a =
    0x05 ∷ 0x01 ∷ 0x00 ∷ (target_text a.type a ++ ((a.port / 2 ^ 8 % 256) ∷ (a.port % 256) ∷ []))

-- How many bytes of an address follow the head of the reply.
unfoldable pub extra_bytes : Bytes → ℕ → Io Status ℕ
extra_bytes broken atyp =
    if atyp == 0x01
    then pure 4
    else if atyp == 0x04
    then pure 16
    else if atyp == 0x03
    then (do n ← read_exact (unavailable broken) 1; pure (get_or n 0 0))
    else stop (unavailable (codes "bad socks5 atyp"))

unfoldable pub handle : Bytes → Account → Address → Io Status (Unit {0})
handle broken cfg target = do
  write_all (unavailable broken) (greeting cfg)
  answer ← read_exact (unavailable broken) 2
  guard (get_or answer 0 0 == 0x05) (unavailable (codes "bad socks5 ver"))
  guard (not (get_or answer 1 0 == 0xFF)) (unavailable (codes "no acceptable method"))
  account_if (get_or answer 1 0 == 0x02) broken cfg
  write_all (unavailable broken) (request_text target)
  head ← read_exact (unavailable broken) 4
  guard (get_or head 1 0 == 0) (unavailable (codes "socks5 CONNECT rejected"))
  extra ← extra_bytes broken (get_or head 3 0)
  rest ← read_exact (unavailable broken) (extra + 2)
  pure tt
