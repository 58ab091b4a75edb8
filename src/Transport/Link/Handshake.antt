-- ===== src/Transport/Link/Handshake.antt =====
-- `Link::start`, `handshakeServer` and `handshakeClient` of src/transport/link.cpp. The first and
-- the second frame that `one` answers with are arguments; a handshake that reads no second frame
-- leaves that argument unused. The timer that calls `failLink` is not part of it.
pub mod Agreement
use shine.Prelude.{
  ℕ, zero, suc, ◌≡◌, ◌≢◌, ◌⊎◌, refl, sym, ◌∙◌, ap, subst, inl, inr, List, [], ◌∷◌, ◌++◌, Bool, true,
  false, Bytes, codes, bytes_eq, bytes_eq_sound, bytes_eq_refl, Result, ok, err, unavailable,
  Bool-cases, if◌then◌else◌, arith,
}
use shine.Proto.Frame.{ShineFrame, hello, auth, ok_frame, err_frame}
use shine.Transport.Link.State.{
  Link, Output, writes, signals_handshake, closes_handshake_signal, enqueue_frame, fail_link,
  fail_open,
}
use shine.Transport.Link.Closing.{fail_link_closed}

abbrev pub our_hello : ShineFrame
our_hello = hello (codes "1") (codes "mux,flow")

-- `enqueueFrame` and then the rest.
abbrev pub and_then : List Output → Link × List Output → Link × List Output
and_then calls r = (r.0, calls ++ r.1)

-- The second frame of the server: the password that was sent.
unfoldable pub server_auth : Link → Result ShineFrame → Link × List Output
server_auth l (ok (auth password)) =
    if bytes_eq password l.opts.password
    then (l, enqueue_frame l ok_frame)
    else and_then (enqueue_frame l (err_frame (codes "AUTH") (codes "bad password"))) (fail_link l)
server_auth l _ = fail_link l

-- `if (!opts_.password.empty())`, for both sides.
unfoldable pub with_password : Bytes → Link → Link × List Output → Link × List Output
with_password [] l r = (l, [])
with_password (b ∷ password) l r = r

unfoldable pub handshake_server : Link → Result ShineFrame → Result ShineFrame → Link × List Output
handshake_server l (ok (hello version caps)) f2 =
    and_then (enqueue_frame l our_hello) (with_password l.opts.password l (server_auth l f2))
handshake_server l _ f2 = fail_link l

-- The second frame of the client: the answer to its password.
unfoldable pub client_auth : Link → Result ShineFrame → Link × List Output
client_auth l (ok ok_frame) = (l, [])
client_auth l _ = fail_link l

unfoldable pub client_hello : Link → Result ShineFrame → Result ShineFrame → Link × List Output
client_hello l (ok (hello version caps)) f2 =
    with_password l.opts.password l
      (and_then (enqueue_frame l (auth l.opts.password)) (client_auth l f2))
client_hello l _ f2 = fail_link l

unfoldable pub handshake_client : Link → Result ShineFrame → Result ShineFrame → Link × List Output
handshake_client l f1 f2 = and_then (enqueue_frame l our_hello) (client_hello l f1 f2)

-- What follows the handshake in `start`, before the reader loop.
unfoldable pub finish_handshake : Link × List Output → Link × List Output
finish_handshake r = if r.0.closed then r else (
  record r.0 { handshake_done = true },
  r.1 ++ (signals_handshake ∷ closes_handshake_signal ∷ []),
)

-- `if (self->opts_.is_server)`.
unfoldable pub handshake : Bool → Link → Result ShineFrame → Result ShineFrame → Link × List Output
handshake true l f1 f2 = handshake_server l f1 f2
handshake false l f1 f2 = handshake_client l f1 f2

unfoldable pub start : ℕ → Link → Result ShineFrame → Result ShineFrame → Link × List Output
start now l0 f1 f2 =
    let l = record l0 { last_pong_ns = now } in
    finish_handshake (handshake l.opts.is_server l f1 f2)

-- A handshake that ended in a closed link is not finished.
finish_closed : (r : Link × List Output) → r.0.closed ≡ true → finish_handshake r ≡ r
unfolding finish_handshake
finish_closed r h = rw h refl

-- How a handshake settles: the link is unchanged and the frames allow it, or the link is closed.
abbrev Settled {κ} : Type κ → Link → Link × List Output → Type κ
Settled P l r = ((r.0 ≡ l) × P) ⊎ (r.0.closed ≡ true)

Settled-fail {κ} :
    (P : Type κ) (l : Link) (calls : List Output) → Settled P l (and_then calls (fail_link l))
Settled-fail P l calls = inr (fail_link_closed l)

server_auth-Settled :
    (l : Link) (f2 : Result ShineFrame)
    → Settled (f2 ≡ ok (auth l.opts.password)) l (server_auth l f2)
unfolding server_auth
server_auth-Settled l (ok (auth password)) = elim (Bool-cases (bytes_eq password l.opts.password)) [
  | inl h ↦ rw h (inl (refl, ap (λ p. ok (auth p)) (bytes_eq_sound password l.opts.password h)))
  | inr h ↦ rw h (inr (fail_link_closed l))
]
server_auth-Settled l _ = inr (fail_link_closed l)

-- The frames with which the server's handshake succeeds.
abbrev pub IsAuthenticated : Bytes → Result ShineFrame → Result ShineFrame → Type 0
IsAuthenticated password f1 f2 =
    (version : Bytes) × (caps : Bytes) × (f1 ≡ ok (hello version caps))
    × ((password ≡ []) ⊎ (f2 ≡ ok (auth password)))

with_password-Settled :
    (password : Bytes) (l : Link) (f2 : Result ShineFrame) (r : Link × List Output)
    → Settled (f2 ≡ ok (auth password)) l r
    → Settled ((password ≡ []) ⊎ (f2 ≡ ok (auth password))) l (with_password password l r)
unfolding with_password
with_password-Settled [] l f2 r h = inl (refl, inl refl)
with_password-Settled (b ∷ password) l f2 r (inl h) = inl (h.0, inr h.1)
with_password-Settled (b ∷ password) l f2 r (inr h) = inr h

handshake_server-Settled :
    (l : Link) (f1 f2 : Result ShineFrame)
    → Settled (IsAuthenticated l.opts.password f1 f2) l (handshake_server l f1 f2)
unfolding handshake_server
handshake_server-Settled l (ok (hello version caps)) f2 =
    elim (with_password-Settled l.opts.password l f2 (server_auth l f2)
      (server_auth-Settled l f2)) [ inl h ↦ inl (h.0, (version, caps, refl, h.1)) | inr h ↦ inr h ]
handshake_server-Settled l _ f2 = inr (fail_link_closed l)

finish-Settled {κ} :
    (P : Type κ) (l : Link) (r : Link × List Output)
    → l.handshake_done ≡ false
    → l.closed ≡ false
    → Settled P l r
    → ((finish_handshake r).0.closed ≡ true) ⊎ (((finish_handshake r).0.handshake_done ≡ true) × P)
unfolding finish_handshake
finish-Settled P l r d c (inl h) =
    let open_still : r.0.closed ≡ false = ap (λ x. x.closed) h.0 ∙ c in
    inr (rw open_still refl, h.1)
finish-Settled P l r d c (inr h) = inl (rw h refl)

-- Started on two frames, a server's link that was open ends closed, or the handshake is done and the
-- client is authenticated: the first frame was a HELLO, and where the server has a password, the
-- second was an AUTH with exactly that password.
pub start-IsAuthenticated :
    (now : ℕ) (l : Link) (f1 f2 : Result ShineFrame)
    → l.opts.is_server ≡ true
    → l.handshake_done ≡ false
    → l.closed ≡ false
    → ((start now l f1 f2).0.closed ≡ true)
      ⊎ (((start now l f1 f2).0.handshake_done ≡ true) × IsAuthenticated l.opts.password f1 f2)
unfolding start handshake
start-IsAuthenticated now l0 f1 f2 server d c =
    let l : Link = record l0 { last_pong_ns = now } in
    subst
      (λ b.
        ((finish_handshake (handshake b l f1 f2)).0.closed ≡ true)
        ⊎ (((finish_handshake (handshake b l f1 f2)).0.handshake_done ≡ true)
            × IsAuthenticated l0.opts.password f1 f2))
      (sym server)
      (finish-Settled (IsAuthenticated l0.opts.password f1 f2) l (handshake_server l f1 f2) d c
        (handshake_server-Settled l f1 f2))

-- The frames among the outputs, which the peer reads in this order; `one` answers with them.
abbrev pub written : List Output → List ShineFrame
written [] = []
written (writes f ∷ calls) = f ∷ written calls
written (_ ∷ calls) = written calls

abbrev pub received : List ShineFrame → ℕ → Result ShineFrame
received [] n = err (unavailable (codes "eof"))
received (f ∷ fs) zero = ok f
received (f ∷ fs) (suc n) = received fs n
