-- ===== src/Outbound/Socks5/Exchange.antt =====
-- The client of src/outbound/socks5_outbound.cpp against the server of
-- src/inbound/socks5_inbound.cpp, each reading what the other writes.
pub mod Dialogue
use shine.Prelude.{
  ℕ, zero, suc, ◌+◌, ◌%◌, ◌^◌, ◌<◌, ◌≡◌, refl, sym, ◌∙◌, ap, [], ◌∷◌, ◌++◌, Option, Bytes, get_or,
  length, arith, append_assoc, take-append, length-append, replicate, min, bytes_eq_refl,
  unavailable,
}
use shine.Socket.{
  Conn, stops, goes, read_exact, write_all, written_to, taken, exactly, read_exact-append,
  read_exact_all,
}
use shine.Transport.Address.{Address, from_ipv4, from_ipv6, from_domain}
use shine.Transport.Address.Binary.{HasForm, v4, v6, name, port_high}
use shine.Inbound.Socks5.{
  Account, require_auth, choose, select_method, read_counted, check_account, authenticate, auth_if,
  reply, port_at, read_ipv4, read_ipv6, read_domain, read_address, refuse_unless, read_request,
  connects, accept_command, handle_client,
}
use shine.Outbound.Socks5.{
  greeting, account_text, send_account, account_if, target_text, request_text, extra_bytes, handle,
}

get_or-behind :
    (d rest : Bytes) (k i x : ℕ) → k ≡ length d → get_or (d ++ rest) (k + i) x ≡ get_or rest i x
get_or-behind [] rest k i x h = ap (λ n. get_or rest n x) (omega arith)
get_or-behind (a ∷ d) rest zero i x h = absurd (omega arith)
get_or-behind (a ∷ d) rest (suc k) i x h =
    let e : suc k + i ≡ suc (k + i) = omega arith in
    ap (λ n. get_or (a ∷ (d ++ rest)) n x) e ∙ get_or-behind d rest k i x (omega arith)

abbrev ports : ℕ → Bytes
ports port = port_high port ∷ (port % 256) ∷ []

port_at-behind :
    (d : Bytes) (k port : ℕ) → k ≡ length d → port < 2 ^ 16 → port_at k (d ++ ports port) ≡ port
port_at-behind d k port h small =
    let here : k ≡ k + 0 = omega arith in
    let first =
      ap (λ n. get_or (d ++ ports port) n 0) here ∙ get_or-behind d (ports port) k 0 0 h in
    let second = get_or-behind d (ports port) k 1 0 h in omega (arith, first, second, small)

-- The request that the server reads is the one that the client wrote.
pub read_request-request_text :
    (a : Address) (c : Conn)
    → HasForm a
    → c.input ≡ request_text a
    → read_request c ≡ (goes (1, a), record c { input = [] })
unfolding read_request request_text target_text read_address read_ipv4 read_ipv6 read_domain
    read_counted refuse_unless from_ipv4 from_ipv6 from_domain
read_request-request_text _ c (v4 b port size fits) h =
    let body = b ++ ports port in
    let text : c.input ≡ (5 ∷ 1 ∷ 0 ∷ 1 ∷ []) ++ body =
      h
      ∙ ap (λ d. 5 ∷ 1 ∷ 0 ∷ 1 ∷ (d ++ ports port)) (take-append 4 b (replicate 12 0) (sym size)) in
    let long : 6 ≡ length body = omega (arith, length-append b (ports port)) in
    rw
      (
        read_exact-append tt 4 (5 ∷ 1 ∷ 0 ∷ 1 ∷ []) body c text refl,
        read_exact_all tt 6 body (record c { input = body }) refl long,
        take-append 4 b (ports port) (sym size),
        port_at-behind b 4 port (sym size) fits,
      )
      refl
read_request-request_text _ c (v6 b port size fits) h =
    let body = b ++ ports port in
    let text : c.input ≡ (5 ∷ 1 ∷ 0 ∷ 4 ∷ []) ++ body = h in
    let long : 18 ≡ length body = omega (arith, length-append b (ports port)) in
    rw
      (
        read_exact-append tt 4 (5 ∷ 1 ∷ 0 ∷ 4 ∷ []) body c text refl,
        read_exact_all tt 18 body (record c { input = body }) refl long,
        take-append 16 b (ports port) (sym size),
        port_at-behind b 16 port (sym size) fits,
      )
      refl
read_request-request_text _ c (name d port pos short fits) h =
    let body = d ++ ports port in
    let least : min 255 (length d) ≡ length d = ground arith in
    let text : c.input ≡ (5 ∷ 1 ∷ 0 ∷ 3 ∷ []) ++ (length d ∷ body) =
      h ∙ ap (λ n. 5 ∷ 1 ∷ 0 ∷ 3 ∷ n ∷ body) least in
    rw
      (
        read_exact-append tt 4 (5 ∷ 1 ∷ 0 ∷ 3 ∷ []) (length d ∷ body) c text refl,
        read_exact-append tt 1 (length d ∷ []) body (record c { input = length d ∷ body }) refl
            refl,
        read_exact-append tt (length d) d (ports port) (record c { input = body }) refl refl,
        read_exact_all tt 2 (ports port) (record c { input = ports port }) refl refl,
        port_at-behind [] 0 port refl fits,
      )
      refl

-- A connection on which nothing was written yet, with as many writes as either side makes.
abbrev pub conn_of : Bytes → Conn
conn_of input = record { input = input; output = []; writes_left = 3 }

-- What the two sides write in an exchange with an account.
abbrev pub client_text : Account → Address → Bytes
client_text cfg a = ((5 ∷ 2 ∷ 0 ∷ 2 ∷ []) ++ account_text cfg) ++ request_text a

abbrev pub server_text : Bytes
server_text = 5 ∷ 2 ∷ 1 ∷ 0 ∷ reply 0

pub client_run :
    (broken : Bytes) (u : ℕ) (us p : Bytes) (a : Address)
    → let cfg : Account = record { user = u ∷ us; pass = p } in
      handle broken cfg a (conn_of server_text)
      ≡ (goes tt, record { input = []; output = client_text cfg a; writes_left = 0 })
unfolding handle greeting account_if send_account extra_bytes write_all written_to read_exact taken
    exactly
client_run broken u us p a = refl

-- The two stages of the server before the request.
pub select_run :
    (u w : ℕ) (us p rest out : Bytes)
    → select_method
        (record { user = u ∷ us; pass = p })
        (record { input = 5 ∷ 2 ∷ 0 ∷ 2 ∷ rest; output = out; writes_left = suc w })
      ≡ (goes 2, record { input = rest; output = out ++ (5 ∷ 2 ∷ []); writes_left = w })
unfolding select_method require_auth choose write_all written_to read_exact taken exactly
select_run u w us p rest out = refl

pub account_run :
    (cfg : Account) (w : ℕ) (rest out : Bytes)
    → authenticate cfg (record {
      input = 1 ∷ length cfg.user ∷ (cfg.user ++ (length cfg.pass ∷ (cfg.pass ++ rest)));
      output = out;
      writes_left = suc w;
    })
      ≡ (goes tt, record { input = rest; output = out ++ (1 ∷ 0 ∷ []); writes_left = w })
unfolding authenticate read_counted check_account write_all written_to
account_run cfg w rest out =
    let c : Bytes → Conn = λ s. record { input = s; output = out; writes_left = suc w } in
    let after_pass = length cfg.pass ∷ (cfg.pass ++ rest) in
    let after_one = length cfg.user ∷ (cfg.user ++ after_pass) in
    rw
      (
        read_exact-append tt 1 (1 ∷ []) after_one (c (1 ∷ after_one)) refl refl,
        read_exact-append tt 1 (length cfg.user ∷ []) (cfg.user ++ after_pass) (c after_one) refl
            refl,
        read_exact-append tt (length cfg.user) cfg.user after_pass (c (cfg.user ++ after_pass)) refl
            refl,
        read_exact-append tt 1 (length cfg.pass ∷ []) (cfg.pass ++ rest) (c after_pass) refl refl,
        read_exact-append tt (length cfg.pass) cfg.pass rest (c (cfg.pass ++ rest)) refl refl,
        bytes_eq_refl cfg.user,
        bytes_eq_refl cfg.pass,
      )
      refl

client_text_shape :
    (cfg : Account) (a : Address)
    → length cfg.user < 256
    → length cfg.pass < 256
    → client_text cfg a
      ≡ 5
        ∷ 2
        ∷ 0
        ∷ 2
        ∷ 1
        ∷ length cfg.user
        ∷ (cfg.user ++ (length cfg.pass ∷ (cfg.pass ++ request_text a)))
unfolding account_text
client_text_shape cfg a short short' =
    let n : length cfg.user % 256 ≡ length cfg.user = omega (arith, short) in
    let m : length cfg.pass % 256 ≡ length cfg.pass = omega (arith, short') in
    rw (n, m)
      (ap (λ x. 5 ∷ 2 ∷ 0 ∷ 2 ∷ 1 ∷ length cfg.user ∷ x)
        (append_assoc cfg.user (length cfg.pass ∷ cfg.pass) (request_text a)))

pub server_run :
    (bound : Option (Bytes × ℕ)) (u : ℕ) (us p : Bytes) (a : Address)
    → length (u ∷ us) < 256
    → length p < 256
    → HasForm a
    → let cfg : Account = record { user = u ∷ us; pass = p } in
      handle_client cfg bound (conn_of (client_text cfg a))
      ≡ (goes (connects a), record { input = []; output = server_text; writes_left = 0 })
unfolding handle_client require_auth auth_if accept_command write_all written_to
server_run bound u us p a short short' form =
    let cfg : Account = record { user = u ∷ us; pass = p } in
    let rest = 1 ∷ length cfg.user ∷ (cfg.user ++ (length p ∷ (p ++ request_text a))) in
    ap (λ s. handle_client cfg bound (conn_of s)) (client_text_shape cfg a short short')
    ∙ rw
        (
          select_run u 2 us p rest [],
          account_run cfg 1 (request_text a) (5 ∷ 2 ∷ []),
          read_request-request_text a
              (record { input = request_text a; output = 5 ∷ 2 ∷ 1 ∷ 0 ∷ []; writes_left = 1 }) form
              refl,
        )
        refl

-- A client without a user announces two methods and names one. Given exactly the three bytes that it
-- writes, the server runs out of input and has answered nothing; given no answer, the client runs out
-- of input too. So neither gets on, whatever the target and the account of the server.
pub socks_stall :
    (broken p : Bytes) (cfg : Account) (bound : Option (Bytes × ℕ)) (a : Address)
    → let client = handle broken (record { user = []; pass = p }) a (conn_of []) in
      let server = handle_client cfg bound (conn_of client.1.output) in
      (client.1.output ≡ 5 ∷ 2 ∷ 0 ∷ [])
      × (server.1.output ≡ [])
      × (client.0 ≡ stops (unavailable broken))
      × (server.0 ≡ stops tt)
unfolding handle handle_client select_method greeting write_all written_to read_exact taken exactly
socks_stall broken p cfg bound a = (refl, refl, refl, refl)
