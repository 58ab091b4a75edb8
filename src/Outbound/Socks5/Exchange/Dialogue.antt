-- ===== src/Outbound/Socks5/Exchange/Dialogue.antt =====
-- The whole dialogue of src/outbound/socks5_outbound.cpp with src/inbound/socks5_inbound.cpp, from the
-- connection on, each side given only what the other one has written so far.
use shine.Prelude.{
  ℕ, suc, ◌%◌, ◌<◌, ◌≡◌, refl, sym, ◌∙◌, ap, [], ◌∷◌, ◌++◌, Option, Bytes, length, arith,
  append-nil,
}
use shine.Rounds.{talk, talk_round, talk_settled}
use shine.Socket.{stops, goes, read_exact, write_all, written_to, taken, exactly}
use shine.Transport.Address.{Address}
use shine.Transport.Address.Binary.{HasForm}
use shine.Inbound.Socks5.{
  Account, require_auth, choose, authenticate, auth_if, connects, handle_client, select_method,
  read_request,
}
use shine.Outbound.Socks5.{greeting, account_text, send_account, account_if, handle}
use shine.Outbound.Socks5.Exchange.{
  conn_of, client_text, server_text, client_run, server_run, select_run, account_run,
}

-- What either side writes on what it was sent.
abbrev pub client_says : Bytes → Account → Address → Bytes → Bytes
client_says broken cfg a s = (handle broken cfg a (conn_of s)).1.output

abbrev pub server_says : Account → Option (Bytes × ℕ) → Bytes → Bytes
server_says cfg bound s = (handle_client cfg bound (conn_of s)).1.output

module _ (broken : Bytes) (bound : Option (Bytes × ℕ)) (u : ℕ) (us p : Bytes) (a : Address) where
  abbrev cfg : Account
  cfg = record { user = u ∷ us; pass = p }

  -- The client writes its greeting before it reads, and the account on the choice of method 2.
  client_greets : client_says broken cfg a [] ≡ 5 ∷ 2 ∷ 0 ∷ 2 ∷ []
  unfolding handle greeting write_all written_to read_exact taken exactly
  client_greets = refl

  client_names : client_says broken cfg a (5 ∷ 2 ∷ []) ≡ (5 ∷ 2 ∷ 0 ∷ 2 ∷ []) ++ account_text cfg
  unfolding handle greeting account_if send_account write_all written_to read_exact taken exactly
  client_names = refl

  client_asks : client_says broken cfg a (5 ∷ 2 ∷ 1 ∷ 0 ∷ []) ≡ client_text cfg a
  unfolding handle greeting account_if send_account write_all written_to read_exact taken exactly
  client_asks = refl

  -- The server chooses on the greeting alone.
  server_chooses : server_says cfg bound (5 ∷ 2 ∷ 0 ∷ 2 ∷ []) ≡ 5 ∷ 2 ∷ []
  unfolding handle_client select_method require_auth choose auth_if authenticate write_all
      written_to read_exact taken exactly
  server_chooses = refl

  -- And it answers the account alone.
  server_admits :
      length (u ∷ us) < 256
      → length p < 256
      → server_says cfg bound ((5 ∷ 2 ∷ 0 ∷ 2 ∷ []) ++ account_text cfg) ≡ 5 ∷ 2 ∷ 1 ∷ 0 ∷ []
  unfolding handle_client require_auth auth_if account_text read_request read_exact taken exactly
  server_admits short short' =
      let rest = 1 ∷ length (u ∷ us) ∷ ((u ∷ us) ++ (length p ∷ (p ++ []))) in
      let n : length (u ∷ us) % 256 ≡ length (u ∷ us) = omega (arith, short) in
      let m : length p % 256 ≡ length p = omega (arith, short') in
      let text : (5 ∷ 2 ∷ 0 ∷ 2 ∷ []) ++ account_text cfg ≡ 5 ∷ 2 ∷ 0 ∷ 2 ∷ rest =
        rw (n, m)
          (ap (λ x. 5 ∷ 2 ∷ 0 ∷ 2 ∷ 1 ∷ length (u ∷ us) ∷ ((u ∷ us) ++ (length p ∷ x)))
            (sym (append-nil p))) in
      let run : handle_client cfg bound (conn_of (5 ∷ 2 ∷ 0 ∷ 2 ∷ rest))
          ≡ (stops tt, record { input = []; output = 5 ∷ 2 ∷ 1 ∷ 0 ∷ []; writes_left = 1 }) =
        rw (select_run u 2 us p rest [], account_run cfg 1 [] (5 ∷ 2 ∷ [])) refl in
      ap (server_says cfg bound) text ∙ ap (λ r. r.1.output) run

-- A client with an account, whose user is not empty and whose texts have at most 255 bytes, with a
-- target that has a binary form (an address of 4 or 16 bytes or a domain of 1 to 255, and a port of
-- 16 bits), against a server with the same account, on a connection whose writes succeed. Nothing is
-- said at first, and each is given only what the other has written so far. From the third round on,
-- the client has written its greeting, account and request, the server its three answers, and neither
-- writes more; and on these both go through, and the server gives its handler a connection to exactly
-- the target of the client.
pub socks_exchange :
    (broken : Bytes) (bound : Option (Bytes × ℕ)) (u : ℕ) (us p : Bytes) (a : Address) (n : ℕ)
    → length (u ∷ us) < 256
    → length p < 256
    → HasForm a
    → let cfg : Account = record { user = u ∷ us; pass = p } in
      (talk (client_says broken cfg a) (server_says cfg bound) (suc (suc (suc n))) ([], [])
        ≡ (client_text cfg a, server_text))
      × ((handle broken cfg a (conn_of server_text)).0 ≡ goes tt)
      × ((handle_client cfg bound (conn_of (client_text cfg a))).0 ≡ goes (connects a))
socks_exchange broken bound u us p a n short short' form =
    let cfg : Account = record { user = u ∷ us; pass = p } in
    let client = client_says broken cfg a in
    let server = server_says cfg bound in
    let c = client_run broken u us p a in
    let s = server_run bound u us p a short short' form in
    let hello : Bytes = 5 ∷ 2 ∷ 0 ∷ 2 ∷ [] in
    let named = hello ++ account_text cfg in
    let first =
      talk_round client server hello [] (5 ∷ 2 ∷ []) (suc (suc n)) []
        (client_greets broken bound u us p a) (server_chooses broken bound u us p a) in
    let second =
      talk_round client server named (5 ∷ 2 ∷ []) (5 ∷ 2 ∷ 1 ∷ 0 ∷ []) (suc n) hello
        (client_names broken bound u us p a) (server_admits broken bound u us p a short short') in
    let c_wrote = ap (λ r. r.1.output) c in
    let s_wrote = ap (λ r. r.1.output) s in
    let third =
      talk_round client server (client_text cfg a) (5 ∷ 2 ∷ 1 ∷ 0 ∷ []) server_text n named
        (client_asks broken bound u us p a) s_wrote in
    let settled = talk_settled client server (client_text cfg a) server_text n c_wrote s_wrote in
    (first ∙ second ∙ third ∙ settled, ap (λ r. r.0) c, ap (λ r. r.0) s)
