-- ===== src/Transport/Link/State.antt =====
-- The state of a `Link` of src/transport/link.hpp, its table of sessions, and the operations on
-- both. The order of the table stands for that of the hash map. Sessions are shared objects:
-- `objects` holds every one that was made, and the table maps a sid to the position of an object.
-- An operation returns the new link and the calls that it makes.
use shine.Prelude.{
  ℕ, List, [], ◌∷◌, ◌++◌, Option, none, some, Bool, true, false, Bytes, codes, Result, ok, err,
  unavailable, length, get_elem?, set, ◌==◌, if◌then◌else◌,
}
use shine.Proto.Frame.{ShineFrame, new, new_udp, close}
use shine.Transport.Address.{Address, to_binary}
use shine.Transport.Session.{Session, Call, Protocol, tcp, udp}
use shine.Transport.Session

-- The options that the operations read.
pub record Options : Type 0 where
  pub password : Bytes
  pub init_window : ℕ
  pub is_server : Bool
  pub ping_interval : ℕ
  pub pong_timeout : ℕ

pub record Link : Type 0 where
  pub opts : Options
  pub closed : Bool
  pub handshake_done : Bool
  -- Whether `on_new_session_` is set.
  pub has_handler : Bool
  pub objects : List Session
  pub sessions : List (ℕ × ℕ)
  pub last_pong_ns : ℕ
  pub pending_ping_nonce : ℕ
  pub last_ping_sent_ns : ℕ

-- A link that was just made; `start` sets its handler.
unfoldable pub create : Options → Bool → Link
create opts has_handler = record {
  opts = opts;
  closed = false;
  handshake_done = false;
  has_handler = has_handler;
  objects = [];
  sessions = [];
  last_pong_ns = 0;
  pending_ping_nonce = 0;
  last_ping_sent_ns = 0;
}

-- The calls of a link: a frame sent to the write channel, the socket and the two channels closed, a
-- handler started on an object, and a call that an object makes on one of its channels.
pub data Output : Type 0 where
  writes : ShineFrame → Output
  closes_socket closes_write_chan signals_handshake closes_handshake_signal posts_close : Output
  starts_handler : ℕ → Output
  on_object : ℕ → Call → Output

-- `sessions_.find`, `sessions_.erase` and `sessions_.emplace`, which keeps an entry that is there.
unfoldable pub lookup : ℕ → List (ℕ × ℕ) → Option ℕ
lookup sid [] = none
lookup sid ((k, i) ∷ table) = if k == sid then some i else lookup sid table

unfoldable pub erase : ℕ → List (ℕ × ℕ) → List (ℕ × ℕ)
erase sid [] = []
erase sid ((k, i) ∷ table) = let rest = erase sid table in if k == sid then rest else (k, i) ∷ rest

unfoldable pub emplace : ℕ → ℕ → List (ℕ × ℕ) → List (ℕ × ℕ)
emplace sid i table = elim (lookup sid table) [ none ↦ (sid, i) ∷ table | some j ↦ table ]

unfoldable pub find_session : Link → ℕ → Option ℕ
find_session l sid = lookup sid l.sessions

unfoldable pub erase_session : Link → ℕ → Link
erase_session l sid = record l { sessions = erase sid l.sessions }

-- `enqueueFrame`.
unfoldable pub enqueue_frame : Link → ShineFrame → List Output
enqueue_frame l f = if l.closed then [] else (writes f ∷ [])

abbrev pub outputs_of : ℕ → List Call → List Output
outputs_of i [] = []
outputs_of i (c ∷ calls) = on_object i c ∷ outputs_of i calls

-- A method of the object at `i`: the object is replaced, and its calls are made.
unfoldable pub on_found :
    ℕ → (Session → Session × List Call) → Link → Option Session → Link × List Output
on_found i method l none = (l, [])
on_found i method l (some s) =
    (record l { objects = set l.objects i (method s).0 }, outputs_of i (method s).1)

unfoldable pub on_session : ℕ → (Session → Session × List Call) → Link → Link × List Output
on_session i method l = on_found i method l (get_elem? l.objects i)

-- A session made and put into the table.
unfoldable pub add_session : ℕ → Session → Link → Link
add_session sid s l = record l {
  objects = l.objects ++ (s ∷ []);
  sessions = emplace sid (length l.objects) l.sessions;
}

abbrev protocol_of : Bool → Protocol
protocol_of is_udp = if is_udp then udp else tcp

-- `openSession` with the sid that the generator gave: the link, the new object and the calls.
unfoldable pub open_session : Link → ℕ → Address → Bool → Result (Link × (ℕ × List Output))
open_session l sid target is_udp =
    if l.closed
    then err (unavailable (codes "link closed"))
    else (let w = l.opts.init_window in
        let s = Session.create sid target w w (protocol_of is_udp) in
        ok (
          add_session sid s l,
          (
            length l.objects,
            enqueue_frame l (if is_udp then new_udp sid else new sid (to_binary target) w),
          ),
        ))

-- The frames that `gracefulShutdown` sends before it waits.
unfoldable pub shutdown_frames : Link → List (ℕ × ℕ) → List Output
shutdown_frames l [] = []
shutdown_frames l ((k, i) ∷ table) = elim (get_elem? l.objects i) [
  | none ↦ shutdown_frames l table
  | some s ↦ enqueue_frame l (close s.sid (codes "shutdown")) ++ shutdown_frames l table
]

-- `onReset` on each of the objects that were in the table.
unfoldable pub reset_all : List (ℕ × ℕ) → Link → Link × List Output
reset_all [] l = (l, [])
reset_all ((sid, i) ∷ table) l =
    let first = on_session i Session.on_reset l in
    let rest = reset_all table first.0 in (rest.0, first.1 ++ rest.1)

-- `failLink` on a link that is not closed.
unfoldable pub fail_open : Link → Link × List Output
fail_open l =
    let r = reset_all l.sessions (record l { closed = true; sessions = [] }) in
    (r.0, closes_socket ∷ closes_write_chan ∷ closes_handshake_signal ∷ r.1)

-- `if (closed_.exchange(true)) return;`, on what the exchange answers.
unfoldable pub unless_closed : Bool → Link → Link × List Output → Link × List Output
unless_closed true l r = (l, [])
unless_closed false l r = r

unfoldable pub fail_link : Link → Link × List Output
fail_link l = unless_closed l.closed l (fail_open l)

-- `closeNow`; the rest of it runs later on the strand.
unfoldable pub close_now : Link → Link × List Output
close_now l = unless_closed l.closed l (record l { closed = true }, posts_close ∷ [])

-- `markClosed`.
unfoldable pub mark_closed : Link → Link × List Output
mark_closed l = (record l { closed = true }, closes_socket ∷ closes_write_chan ∷ [])

-- `waitHandshake`: the answer, or none where it waits for the signal.
unfoldable pub wait_handshake : Link → Option Bool
wait_handshake l = if l.handshake_done then some true else if l.closed then some false else none
