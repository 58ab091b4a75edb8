-- ===== src/Inbound/Listen.antt =====
-- `start` of src/inbound/shine_inbound.cpp, src/inbound/http_connect_inbound.cpp and
-- src/inbound/socks5_inbound.cpp: where an inbound listens.
use shine.Prelude.{Bytes, Result, ok, err, ◌>>=◌, ◌>>◌, invalid_argument, take}
use shine.Transport.Address.{Address, AddressType, ipv4, ipv6, domain_type}
use shine.Transport.Address.Text.{TextLib, parse_host_port}
use shine.Inbound.Socks5.Udp.{Endpoint}

-- The calls on the acceptor, each with what it answers.
pub record Acceptor : Type 0 where
  pub opens : Endpoint → Result (Unit {0})
  pub binds : Endpoint → Result (Unit {0})
  pub listens : Endpoint → Result (Unit {0})

unfoldable pub endpoint_of : Bytes → AddressType → Address → Result Endpoint
endpoint_of message ipv4 a = ok (record { host = take 4 a.bytes; port = a.port })
endpoint_of message ipv6 a = ok (record { host = a.bytes; port = a.port })
endpoint_of message domain_type a = err (invalid_argument message)

-- `message` is the text for a domain, which differs between the three.
unfoldable pub start : TextLib → Acceptor → Bytes → Bytes → Result (Unit {0})
start lib acceptor message listen = do
  ep ← parse_host_port lib listen
  real ← endpoint_of message ep.type ep
  acceptor.opens real
  acceptor.binds real
  acceptor.listens real
