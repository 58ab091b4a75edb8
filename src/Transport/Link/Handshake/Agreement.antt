-- ===== src/Transport/Link/Handshake/Agreement.antt =====
-- Both sides of the handshake of src/transport/link.cpp, each reading what the other writes.
use shine.Prelude.{
  ℕ, suc, ◌≡◌, refl, ◌∙◌, List, [], ◌∷◌, Bool, true, false, not, Bytes, codes, bytes_eq, ok,
}
use shine.Rounds.{talk, talk_round, talk_settled}
use shine.Proto.Frame.{ShineFrame, auth, ok_frame, err_frame}
use shine.Transport.Link.State.{
  Link, create, enqueue_frame, fail_link, fail_open, unless_closed, reset_all,
}
use shine.Transport.Link.Handshake.{
  our_hello, server_auth, with_password, handshake_server, client_auth, client_hello,
  handshake_client, finish_handshake, handshake, start, written, received,
}

-- New links of both sides with their passwords, and other options that do not matter.
abbrev pub side : Bool → Bytes → ℕ → Link
side is_server password init_window =
    create
      (record {
        password = password;
        init_window = init_window;
        is_server = is_server;
        ping_interval = 15;
        pong_timeout = 10;
      })
      is_server

-- What the client and the server write, when each reads what the other writes.
abbrev pub client_writes : Bytes → List ShineFrame
client_writes password = our_hello ∷ auth password ∷ []

abbrev pub server_answer : Bool → ShineFrame
server_answer true = ok_frame
server_answer false = err_frame (codes "AUTH") (codes "bad password")

abbrev pub server_writes : Bool → List ShineFrame
server_writes accepted = our_hello ∷ server_answer accepted ∷ []

client_run :
    (accepted : Bool) (now b : ℕ) (p : Bytes) (w : ℕ)
    → let r = start now (side false (b ∷ p) w) (ok our_hello) (ok (server_answer accepted)) in
      (written r.1 ≡ client_writes (b ∷ p))
      × (r.0.handshake_done ≡ accepted)
      × (r.0.closed ≡ not accepted)
unfolding start handshake handshake_client client_hello client_auth with_password finish_handshake
    enqueue_frame fail_link fail_open unless_closed reset_all create
client_run true now b p w = (refl, refl, refl)
client_run false now b p w = (refl, refl, refl)

server_run :
    (accepted : Bool) (now b : ℕ) (p sent : Bytes) (w : ℕ)
    → bytes_eq sent (b ∷ p) ≡ accepted
    → let r = start now (side true (b ∷ p) w) (ok our_hello) (ok (auth sent)) in
      (written r.1 ≡ server_writes accepted)
      × (r.0.handshake_done ≡ accepted)
      × (r.0.closed ≡ not accepted)
unfolding start handshake handshake_server server_auth with_password finish_handshake enqueue_frame
    fail_link fail_open unless_closed reset_all create
server_run true now b p sent w h = rw h (refl, refl, refl)
server_run false now b p sent w h = rw h (refl, refl, refl)

-- What a side writes on the frames that it was sent, a read beyond them being the end of the input.
abbrev pub says : ℕ → Link → List ShineFrame → List ShineFrame
says now l fs = written (start now l (received fs 0) (received fs 1)).1

-- The client speaks first, and answers a HELLO with its password, before any further frame.
client_first : (now b : ℕ) (p : Bytes) (w : ℕ) → says now (side false (b ∷ p) w) [] ≡ our_hello ∷ []
unfolding start handshake handshake_client client_hello finish_handshake enqueue_frame fail_link
    fail_open unless_closed reset_all create
client_first now b p w = refl

client_second :
    (now b : ℕ) (p : Bytes) (w : ℕ)
    → says now (side false (b ∷ p) w) (our_hello ∷ []) ≡ client_writes (b ∷ p)
unfolding start handshake handshake_client client_hello client_auth with_password finish_handshake
    enqueue_frame fail_link fail_open unless_closed reset_all create
client_second now b p w = refl

-- The server answers a HELLO before the password is there.
server_first :
    (now b : ℕ) (p : Bytes) (w : ℕ)
    → says now (side true (b ∷ p) w) (our_hello ∷ []) ≡ our_hello ∷ []
unfolding start handshake handshake_server server_auth with_password finish_handshake enqueue_frame
    fail_link fail_open unless_closed reset_all create
server_first now b p w = refl

-- A client and a server with non-empty passwords start with nothing said, and each is given only the
-- frames that the other has written so far; the timers do not fire. From the second round on, each has
-- written its HELLO and its second frame and nothing else; and on these frames both finish the
-- handshake when the passwords are equal, and otherwise both end closed and unfinished.
pub exchange :
    (now b b' : ℕ) (p p' : Bytes) (w w' n : ℕ)
    → let accepted = bytes_eq (b ∷ p) (b' ∷ p') in
      let client = side false (b ∷ p) w in
      let server = side true (b' ∷ p') w' in
      let sent = client_writes (b ∷ p) in
      let answered = server_writes accepted in
      let c = start now client (received answered 0) (received answered 1) in
      let s = start now server (received sent 0) (received sent 1) in
      (talk (says now client) (says now server) (suc (suc n)) ([], []) ≡ (sent, answered))
      × (c.0.handshake_done ≡ accepted)
      × (s.0.handshake_done ≡ accepted)
      × (c.0.closed ≡ not accepted)
      × (s.0.closed ≡ not accepted)
exchange now b b' p p' w w' n =
    let accepted = bytes_eq (b ∷ p) (b' ∷ p') in
    let client = says now (side false (b ∷ p) w) in
    let server = says now (side true (b' ∷ p') w') in
    let c = client_run accepted now b p w in
    let s = server_run accepted now b' p' (b ∷ p) w' refl in
    let first =
      talk_round client server (our_hello ∷ []) [] (our_hello ∷ []) (suc n) []
        (client_first now b p w) (server_first now b' p' w') in
    let second =
      talk_round client server (client_writes (b ∷ p)) (our_hello ∷ []) (server_writes accepted) n
        (our_hello ∷ []) (client_second now b p w) s.0 in
    let settled =
      talk_settled client server (client_writes (b ∷ p)) (server_writes accepted) n c.0 s.0 in
    (first ∙ second ∙ settled, c.1, s.1, c.2, s.2)
