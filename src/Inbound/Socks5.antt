-- ===== src/Inbound/Socks5.antt =====
-- `Socks5Inbound::handleClient` of src/inbound/socks5_inbound.cpp, on the connection of a client. A
-- run that stops is the `co_return` of the code; one that goes on gives the request.
pub mod Auth
pub mod Udp
use shine.Prelude.{
  ℕ, ◌+◌, ◌*◌, ◌/◌, ◌%◌, List, [], ◌∷◌, ◌++◌, Option, none, some, Bool, true, false, not, ◌&&◌,
  ◌||◌, Bytes, bytes_eq, get_or, take, drop, length, ◌==◌, if◌then◌else◌,
}
use shine.Socket.{Io, Conn, ◌>>=◌, ◌>>◌, pure, stop, guard, read_exact, write_all}
use shine.Transport.Address.{Address, from_ipv4, from_ipv6, from_domain, default_address}

-- `cfg_.user` and `cfg_.pass`.
pub record Account : Type 0 where
  pub user : Bytes
  pub pass : Bytes

abbrev pub is_empty : Bytes → Bool
is_empty [] = true
is_empty (b ∷ s) = false

unfoldable pub require_auth : Account → Bool
require_auth cfg = not (is_empty cfg.user) || not (is_empty cfg.pass)

-- The loop over the methods, 0xFF where none will do.
unfoldable pub choose : Bool → Bytes → ℕ
choose auth [] = 0xFF
choose auth (m ∷ methods) =
    let rest = choose auth methods in
    if not auth && (m == 0x00) then 0x00 else if auth && (m == 0x02) then 0x02 else rest

unfoldable pub select_method : Account → Io (Unit {0}) ℕ
select_method cfg = do
  hdr ← read_exact tt 2
  guard (get_or hdr 0 0 == 0x05) tt
  guard (not (get_or hdr 1 0 == 0)) tt
  methods ← read_exact tt (get_or hdr 1 0)
  write_all tt (0x05 ∷ choose (require_auth cfg) methods ∷ [])
  guard (not (choose (require_auth cfg) methods == 0xFF)) tt
  pure (choose (require_auth cfg) methods)

-- A text with its length in one byte in front of it. A read of no bytes is skipped in the code.
unfoldable pub read_counted : Io (Unit {0}) Bytes
read_counted = do n ← read_exact tt 1; read_exact tt (get_or n 0 0)

unfoldable pub check_account : Account → Bytes → Bytes → ℕ
check_account cfg u p = if bytes_eq u cfg.user && bytes_eq p cfg.pass then 0x00 else 0x01

-- The RFC 1929 branch.
unfoldable pub authenticate : Account → Io (Unit {0}) (Unit {0})
authenticate cfg = do
  v ← read_exact tt 1
  guard (get_or v 0 0 == 0x01) tt
  u ← read_counted
  p ← read_counted
  write_all tt (0x01 ∷ check_account cfg u p ∷ [])
  guard (check_account cfg u p == 0) tt

unfoldable pub auth_if : Bool → Account → Io (Unit {0}) (Unit {0})
auth_if true cfg = authenticate cfg
auth_if false cfg = pure tt

-- A reply of ten bytes with no address.
abbrev pub reply : ℕ → Bytes
reply code = 0x05 ∷ code ∷ 0x00 ∷ 0x01 ∷ 0 ∷ 0 ∷ 0 ∷ 0 ∷ 0 ∷ 0 ∷ []

-- A port of two bytes, at a position.
abbrev pub port_at : ℕ → Bytes → ℕ
port_at i s = get_or s i 0 * 256 + get_or s (i + 1) 0

-- The address behind the request header, by its type byte.
unfoldable pub read_ipv4 : Io (Unit {0}) Address
read_ipv4 = do s ← read_exact tt 6; pure (from_ipv4 (take 4 s) (port_at 4 s))

unfoldable pub read_domain : Io (Unit {0}) Address
read_domain = do d ← read_counted; s ← read_exact tt 2; pure (from_domain d (port_at 0 s))

unfoldable pub read_ipv6 : Io (Unit {0}) Address
read_ipv6 = do s ← read_exact tt 18; pure (from_ipv6 (take 16 s) (port_at 16 s))

unfoldable pub read_address : ℕ → Io (Unit {0}) Address
read_address atyp =
    if atyp == 0x01
    then read_ipv4
    else if atyp == 0x03
    then read_domain
    else if atyp == 0x04
    then read_ipv6
    else stop tt

abbrev pub is_known : ℕ → Bool
is_known cmd = (cmd == 0x01) || (cmd == 0x03)

-- The refusal of a request that is neither CONNECT nor UDP ASSOCIATE, which ends the coroutine.
unfoldable pub refuse_unless : Bool → Io (Unit {0}) (Unit {0})
refuse_unless true = pure tt
refuse_unless false = write_all tt (reply 0x07) >> stop tt

-- The command and the target of the request.
unfoldable pub read_request : Io (Unit {0}) (ℕ × Address)
read_request = do
  hdr ← read_exact tt 4
  refuse_unless ((get_or hdr 0 0 == 0x05) && is_known (get_or hdr 1 0))
  target ← read_address (get_or hdr 3 0)
  pure (get_or hdr 1 0, target)

-- What is given to the handler: a TCP stream to the target, or a UDP association.
pub data Accepted : Type 0 where
  connects : Address → Accepted
  associates : Accepted

-- The local endpoint of the UDP socket, where `bind` succeeds: four bytes and a port.
unfoldable pub associate : Option (Bytes × ℕ) → Io (Unit {0}) Accepted
associate none = write_all tt (reply 0x01) >> stop tt
associate (some (b, port)) = do
  write_all tt ((0x05 ∷ 0x00 ∷ 0x00 ∷ 0x01 ∷ []) ++ b ++ ((port / 256 % 256) ∷ (port % 256) ∷ []))
  pure associates

unfoldable pub accept_command : Option (Bytes × ℕ) → ℕ × Address → Io (Unit {0}) Accepted
accept_command bound (cmd, target) =
    if cmd == 0x03 then associate bound else (write_all tt (reply 0x00) >> pure (connects target))

unfoldable pub handle_client : Account → Option (Bytes × ℕ) → Io (Unit {0}) Accepted
handle_client cfg bound = do
  chosen ← select_method cfg
  auth_if (require_auth cfg) cfg
  request ← read_request
  accept_command bound request
