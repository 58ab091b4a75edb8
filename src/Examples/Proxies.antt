-- ===== src/Examples/Proxies.antt =====
-- SOCKS5 and HTTP CONNECT, and addresses as text.
use shine.Prelude.{◌≡◌, refl, [], ◌∷◌, ◌++◌, none, some, true, Bytes, codes, ok, Mem, arith}
use shine.Socket.{Conn, goes, read_exact, write_all, written_to, taken, exactly}
use shine.Transport.Address.{Address, from_ipv4, from_domain}
use shine.Transport.Address.Binary.{HasForm, v4}
use shine.Transport.Address.Text.{parse_host_port, parse_ipv4, to_string, host_text, Lacks}
use shine.Transport.Address.Text.RoundTrip.{HasText, text_name, parse_host_port-to_string}
use shine.Inbound.Socks5.{
  Account, require_auth, choose, select_method, read_counted, check_account, authenticate, auth_if,
  read_ipv4, read_address, refuse_unless, read_request, accept_command, connects, handle_client,
}
use shine.Inbound.Socks5.Auth.{IsAuthenticated, handle_client-IsAuthenticated}
use shine.Inbound.Socks5.Udp.{
  Endpoint, same_endpoint, admit, or_next, receive_from, receive_from_known, datagram,
  parse_datagram, parse_body, parse_v4,
}
use shine.Inbound.Socks5.Udp.Headers.{parse_datagram-domain}
use shine.Outbound.Socks5.{handle}
use shine.Outbound.Socks5.Exchange.{conn_of, client_text, server_text}
use shine.Outbound.Socks5.Exchange.Dialogue.{client_says, server_says, socks_exchange}
use shine.Rounds.{talk}
use shine.Inbound.Http.{established, accepts}
use shine.Inbound.Http as HttpInbound
use shine.Inbound.Http.Exchange.{lacking, http_exchange}
use shine.Outbound.Http.{receive_reply, request_text}
use shine.Examples.Numbers.{decimal, decimal-IsLawful, emit}
use shine.Examples.Texts.{plain, plain-IsReliable}

abbrev account : Account
account = record { user = codes "me"; pass = codes "pw" }

abbrev greeted : Conn
greeted = record {
  input =
      (5 ∷ 1 ∷ 2 ∷ [])
      ++ ((1 ∷ 2 ∷ codes "me")
          ++ ((2 ∷ codes "pw") ++ (5 ∷ 1 ∷ 0 ∷ 1 ∷ 127 ∷ 0 ∷ 0 ∷ 1 ∷ 0 ∷ 80 ∷ [])));
  output = [];
  writes_left = 3;
}

abbrev served : Conn
served = record {
  input = [];
  output = 5 ∷ 2 ∷ 1 ∷ 0 ∷ 5 ∷ 0 ∷ 0 ∷ 1 ∷ 0 ∷ 0 ∷ 0 ∷ 0 ∷ 0 ∷ 0 ∷ [];
  writes_left = 0;
}

account_run :
    handle_client account none greeted
    ≡ (goes (connects (from_ipv4 (127 ∷ 0 ∷ 0 ∷ 1 ∷ []) 80)), served)
unfolding handle_client require_auth choose select_method read_counted check_account authenticate
    auth_if read_ipv4 read_address refuse_unless read_request accept_command read_exact write_all
    written_to taken exactly
account_run = refl

require_account : require_auth account ≡ true
unfolding require_auth
require_account = refl

handle_client-IsAuthenticated_example : IsAuthenticated account greeted.input
handle_client-IsAuthenticated_example =
    handle_client-IsAuthenticated account none greeted served
      (connects (from_ipv4 (127 ∷ 0 ∷ 0 ∷ 1 ∷ []) 80)) require_account account_run

abbrev local : Address
local = from_ipv4 (127 ∷ 0 ∷ 0 ∷ 1 ∷ []) 80

local-HasForm : HasForm local
local-HasForm = v4 (127 ∷ 0 ∷ 0 ∷ 1 ∷ []) 80 refl (omega arith)

socks_exchange_example :
    (talk (client_says (codes "eof") account local) (server_says account none) 4 ([], [])
      ≡ (client_text account local, server_text))
    × ((handle (codes "eof") account local (conn_of server_text)).0 ≡ goes tt)
    × ((handle_client account none (conn_of (client_text account local))).0 ≡ goes (connects local))
socks_exchange_example =
    socks_exchange (codes "eof") none b'm' (codes "e") (codes "pw") local 1 (omega arith)
      (omega arith) local-HasForm

abbrev client : Endpoint
client = record { host = 10 ∷ 0 ∷ 0 ∷ 1 ∷ []; port = 4000 }

abbrev stranger : Endpoint
stranger = record { host = 10 ∷ 0 ∷ 0 ∷ 2 ∷ []; port = 4000 }

abbrev dgram : Bytes
dgram = 0 ∷ 0 ∷ 0 ∷ 1 ∷ 8 ∷ 8 ∷ 8 ∷ 8 ∷ 0 ∷ 53 ∷ codes "q"

dgram_received :
    receive_from client ((stranger, dgram) ∷ (client, dgram) ∷ [])
    ≡ (client, some ((codes "q", from_ipv4 (8 ∷ 8 ∷ 8 ∷ 8 ∷ []) 53), []))
unfolding receive_from admit or_next same_endpoint parse_datagram parse_body parse_v4
dgram_received = refl

receive_from_known_example :
    (client ≡ client)
    × ((buf : Bytes) × Mem {A = Endpoint × Bytes}
          (client, buf)
          ((stranger, dgram) ∷ (client, dgram) ∷ [])
        × (parse_datagram buf ≡ some (codes "q", from_ipv4 (8 ∷ 8 ∷ 8 ∷ 8 ∷ []) 53)))
receive_from_known_example =
    receive_from_known client client ((stranger, dgram) ∷ (client, dgram) ∷ []) []
      (codes "q", from_ipv4 (8 ∷ 8 ∷ 8 ∷ 8 ∷ []) 53) (omega arith) dgram_received

parse_datagram-domain_example :
    parse_datagram (datagram (codes "q") (from_domain (codes "a.b") 53))
    ≡ some (codes "q", from_domain (codes "a.b") 53)
parse_datagram-domain_example =
    parse_datagram-domain (codes "q") (codes "a.b") 53 (omega arith) (omega arith)

abbrev site : Address
site = from_domain (codes "a.b") 443

site_name : parse_ipv4 plain (codes "a.b") ≡ none
unfolding parse_ipv4
site_name = refl

site-HasText : HasText plain site
site-HasText =
    text_name (codes "a.b") 443 (λ e. omega (arith, e)) site_name (omega arith) (omega arith)

site_text : to_string decimal plain site ≡ codes "a.b:443"
unfolding to_string host_text emit from_domain
site_text = refl

parse_host_port-to_string_example : parse_host_port plain (to_string decimal plain site) ≡ ok site
parse_host_port-to_string_example =
    parse_host_port-to_string decimal decimal-IsLawful plain plain-IsReliable site site-HasText

site_no_blank : Lacks b' ' (to_string decimal plain site)
site_no_blank = rw site_text (lacking b' ' (codes "a.b:443") refl)

site_no_end : Lacks b'\n' (to_string decimal plain site)
site_no_end = rw site_text (lacking b'\n' (codes "a.b:443") refl)

http_exchange_example :
    (HttpInbound.handle_client plain true (
        (request_text decimal plain (λ s. s) (codes "me") (codes "pw") site ++ codes "hello")
        ∷ codes "more"
        ∷ [])
      ≡ accepts established site (codes "more" ∷ []))
    × (receive_reply (codes "eof") ((established ++ codes "SSH") ∷ codes "-2.0" ∷ [])
        ≡ ok (codes "-2.0" ∷ []))
http_exchange_example =
    http_exchange decimal decimal-IsLawful plain plain-IsReliable (λ s. s) (codes "me") (codes "pw")
      site (codes "hello") (codes "SSH") (codes "more" ∷ []) (codes "-2.0" ∷ []) (codes "eof")
      site-HasText site_no_blank site_no_end
