-- ===== src/Transport/Link/Dispatch.antt =====
-- `Link::dispatchFrame` of src/transport/link.cpp: what a frame from the peer does to the link.
pub mod Table
pub mod Orphans
pub mod Duplicates
pub mod Open
use shine.Prelude.{
  ℕ, List, [], ◌∷◌, ◌++◌, Option, none, some, Bool, true, false, Bytes, Result, ok, err, length,
  get_elem?, ◌==◌, if◌then◌else◌,
}
use shine.Proto.Frame.{
  ShineFrame, hello, auth, ok_frame, err_frame, new, ack, close, reset, window, ping, pong,
  data_frame, new_udp, udp_data,
}
use shine.Transport.Address.{Address, default_address, parse_binary}
use shine.Transport.Session.{Session, SessionState, closed, Protocol, tcp, udp}
use shine.Transport.Session
use shine.Transport.Link.State.{
  Link, Output, writes, starts_handler, on_object, find_session, erase_session, enqueue_frame,
  outputs_of, on_session, add_session,
}

-- A frame for a session that is not in the table is dropped.
unfoldable pub with_session : Link → ℕ → (ℕ → Link × List Output) → Link × List Output
with_session l sid act = elim (find_session l sid) [ none ↦ (l, []) | some i ↦ act i ]

-- A method that changes nothing in the session.
abbrev pub only_calls : (Session → List Session.Call) → Session → Session × List Session.Call
only_calls f s = (s, f s)

-- A session for a NEW or NEW_UDP frame: it is made and entered, acknowledged, and given to the
-- handler.
unfoldable pub accept : Link → ℕ → ℕ → Address → Protocol → Link × List Output
accept l sid win target protocol =
    let s = Session.create sid target win l.opts.init_window protocol in
    (add_session sid s l, enqueue_frame l (ack sid) ++ (starts_handler (length l.objects) ∷ []))

-- The NEW branch behind the test of the handler, on what `parseBinary` answers.
unfoldable pub accept_parsed : Link → ℕ → ℕ → Result Address → Link × List Output
accept_parsed l sid win (err status) = (l, enqueue_frame l (reset sid))
accept_parsed l sid win (ok target) = accept l sid win target tcp

-- The UDP_DATA branch, likewise.
unfoldable pub deliver_udp : Link → ℕ → Bytes → Result Address → Link × List Output
deliver_udp l i payload (err status) = (l, [])
deliver_udp l i payload (ok addr) = on_session i (only_calls (Session.on_udp_data payload addr)) l

-- `if (s->state() == Session::State::Closed) eraseSession(f.sid);`
unfoldable pub erase_closed : SessionState → ℕ → Link → Link
erase_closed closed sid l = erase_session l sid
erase_closed _ sid l = l

-- The state of the object at a position.
abbrev pub state_at : Link → ℕ → SessionState
state_at l i = elim (get_elem? l.objects i) [ none ↦ Session.init | some s ↦ s.state ]

unfoldable pub on_close : Link → ℕ → ℕ → Link × List Output
on_close l sid i =
    let r = on_session i Session.on_peer_close l in (erase_closed (state_at r.0 i) sid r.0, r.1)

unfoldable pub on_reset : Link → ℕ → ℕ → Link × List Output
on_reset l sid i = let r = on_session i Session.on_reset l in (erase_session r.0 sid, r.1)

-- The PONG branch at time `now`: only the nonce that is waited for counts.
unfoldable pub on_pong : ℕ → Link → ℕ → Link
on_pong now l nonce =
    if l.pending_ping_nonce == nonce
    then record l { pending_ping_nonce = 0; last_pong_ns = now }
    else l

-- `now` is what `nowNs` answers.
unfoldable pub dispatch_frame : ℕ → Link → ShineFrame → Link × List Output
dispatch_frame now l (data_frame sid payload) =
    with_session l sid λ i. on_session i (only_calls (Session.on_data payload)) l
dispatch_frame now l (udp_data sid addr_blob payload) =
    with_session l sid λ i. deliver_udp l i payload (parse_binary addr_blob)
dispatch_frame now l (new sid addr_blob init_window) =
    if l.has_handler then accept_parsed l sid init_window (parse_binary addr_blob) else (l, [])
dispatch_frame now l (new_udp sid) =
    if l.has_handler then accept l sid 0 default_address udp else (l, [])
dispatch_frame now l (ack sid) = (l, [])
dispatch_frame now l (close sid reason) = with_session l sid (on_close l sid)
dispatch_frame now l (reset sid) = with_session l sid (on_reset l sid)
dispatch_frame now l (window sid delta) =
    with_session l sid λ i. on_session i (Session.on_window delta) l
dispatch_frame now l (ping nonce) = (l, enqueue_frame l (pong nonce))
dispatch_frame now l (pong nonce) = (on_pong now l nonce, [])
dispatch_frame now l _ = (l, [])
