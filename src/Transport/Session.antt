-- ===== src/Transport/Session.antt =====
-- `Session` of src/transport/session.cpp: a logical stream over a link. A method returns the new
-- session and the calls that it makes; what the link and the channels answer is an argument. The
-- 64-bit `send_credit` is its bit pattern, so that a negative credit is one from 2 ^ 63 on.
pub mod Reading
pub mod Writing
pub mod Lifecycle
use shine.Prelude.{
  ℕ, ◌+◌, ◌%◌, ◌^◌, ◌≡◌, List, [], ◌∷◌, ◌++◌, Option, none, some, Bool, true, false, Bytes, length,
  if◌then◌else◌,
}
use shine.Proto.Frame.{ShineFrame, close, udp_data}
use shine.Transport.Address.{Address, to_binary}

pub data SessionState : Type 0 where
  init opened half_closed_local half_closed_remote closed : SessionState

-- `SessionRequest::Protocol`.
pub data Protocol : Type 0 where
  tcp udp : Protocol

pub record Session : Type 0 where
  pub sid : ℕ
  pub target : Address
  pub protocol : Protocol
  pub our_initial_window : ℕ
  pub send_credit : ℕ
  pub recv_unacked : ℕ
  pub state : SessionState
  pub leftover : Option Bytes
  pub leftover_off : ℕ
  pub bytes_in : ℕ
  pub bytes_out : ℕ

-- The calls that a session makes on its link and its channels. `enqueue f` is `enqueueFrame` of the
-- encoding of `f`. A TCP session has an inbox and a credit signal, a UDP session a UDP inbox.
pub data Call : Type 0 where
  enqueue : ShineFrame → Call
  erase_session : ℕ → Call
  send_inbox : Bytes → Call
  try_send_udp : Bytes → Address → Call
  try_send_credit : Call
  close_inbox close_udp_inbox close_credit : Call

-- The constructor, at the end of which the state is `Open`.
unfoldable pub create : ℕ → Address → ℕ → ℕ → Protocol → Session
create sid target peer_initial_window our_initial_window protocol = record {
  sid = sid;
  target = target;
  protocol = protocol;
  our_initial_window = our_initial_window;
  send_credit = peer_initial_window;
  recv_unacked = 0;
  state = opened;
  leftover = none;
  leftover_off = 0;
  bytes_in = 0;
  bytes_out = 0;
}

-- `if (inbox_) inbox_->close(); if (udp_inbox_) udp_inbox_->close();`
unfoldable pub close_inboxes : Protocol → List Call
close_inboxes tcp = close_inbox ∷ []
close_inboxes udp = close_udp_inbox ∷ []

-- The same and `if (credit_signal_) credit_signal_->close();`
unfoldable pub close_channels : Protocol → List Call
close_channels tcp = close_inbox ∷ close_credit ∷ []
close_channels udp = close_udp_inbox ∷ []

-- `shutdownWrite` on an open link, on the state.
unfoldable pub shutdown_from : SessionState → Session → Session × List Call
shutdown_from opened s = (record s { state = half_closed_local }, enqueue (close s.sid []) ∷ [])
shutdown_from half_closed_remote s =
    (record s { state = closed }, erase_session s.sid ∷ enqueue (close s.sid []) ∷ [])
shutdown_from _ s = (s, [])

-- `link_open` is `link && !link->isClosed()`.
unfoldable pub shutdown_write : Bool → Session → Session × List Call
shutdown_write false s = (s, [])
shutdown_write true s = shutdown_from s.state s

-- What `link_.lock()` finds in `close`: no link, a closed link or an open one.
pub data LinkRef : Type 0 where
  gone link_closed link_open : LinkRef

-- The calls of `close` on the link.
unfoldable pub close_link : LinkRef → ℕ → List Call
close_link gone sid = []
close_link link_closed sid = erase_session sid ∷ []
close_link link_open sid = enqueue (close sid []) ∷ erase_session sid ∷ []

unfoldable pub close_from : SessionState → LinkRef → Session → Session × List Call
close_from closed link s = (s, close_channels s.protocol)
close_from _ link s =
    (record s { state = closed }, close_link link s.sid ++ close_channels s.protocol)

unfoldable pub close_session : LinkRef → Session → Session × List Call
close_session link s = close_from s.state link s

-- `onPeerClose`, on the state.
unfoldable pub peer_closed : SessionState → SessionState
peer_closed half_closed_local = closed
peer_closed opened = half_closed_remote
peer_closed st = st

unfoldable pub on_peer_close : Session → Session × List Call
on_peer_close s = (record s { state = peer_closed s.state }, close_inboxes s.protocol)

unfoldable pub on_reset : Session → Session × List Call
on_reset s = (record s { state = closed }, close_channels s.protocol)

-- `send_credit_.fetch_add(delta)`, and the signal where there is one.
unfoldable pub on_window : ℕ → Session → Session × List Call
on_window delta s = (
  record s { send_credit = (s.send_credit + delta) % 2 ^ 64 },
  elim s.protocol [ tcp ↦ try_send_credit ∷ [] | udp ↦ [] ],
)

-- `onData`: an empty payload is dropped, and so is one for a session with no inbox.
unfoldable pub on_data : Bytes → Session → List Call
on_data [] s = []
on_data (b ∷ payload) s = elim s.protocol [ tcp ↦ send_inbox (b ∷ payload) ∷ [] | udp ↦ [] ]

unfoldable pub on_udp_data : Bytes → Address → Session → List Call
on_udp_data payload addr s = elim s.protocol [ tcp ↦ [] | udp ↦ try_send_udp payload addr ∷ [] ]
