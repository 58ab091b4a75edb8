-- ===== src/Transport/Session/Reading.antt =====
-- `Session::read` and `maybeSendWindow` of src/transport/session.cpp. A read suspends where it
-- waits for the inbox: `read_begin` runs up to there, `read_resume` from there on.
pub mod Order
pub mod Windows
use shine.Prelude.{
  ℕ, ◌+◌, ◌-◌, ◌*◌, ◌/◌, ◌%◌, ◌^◌, ◌<◌, ◌≤◌, ◌≡◌, ◌≢◌, refl, sym, ◌∙◌, ap, inl, inr, List, [], ◌∷◌,
  ◌++◌, Option, none, some, Bool, true, false, arith, Bytes, length, take, drop, min, ltb, leb,
  if◌then◌else◌, Bool-cases, take-append-drop, length-take, length-drop, drop-drop,
}
use shine.Proto.Frame.{ShineFrame, window}
use shine.Transport.Session.{
  Session, SessionState, init, opened, half_closed_local, half_closed_remote, closed, Call, enqueue,
}

-- `maybeSendWindow` on an open link, or none.
unfoldable pub maybe_send_window : Bool → Session → Session × List Call
maybe_send_window false s = (s, [])
maybe_send_window true s =
    if leb (s.our_initial_window / 2) s.recv_unacked
    then (record s { recv_unacked = 0 }, enqueue (window s.sid s.recv_unacked) ∷ [])
    else (s, [])

-- The counters of a read of `n` bytes, in 64 and in 32 bits.
unfoldable pub count_read : ℕ → Session → Session
count_read n s = record s {
  bytes_in = (s.bytes_in + n) % 2 ^ 64;
  recv_unacked = (s.recv_unacked + n % 2 ^ 32) % 2 ^ 32;
}

-- The end of a read that has copied `out` into the caller's buffer.
unfoldable pub finish_read : Bool → Bytes → Session → Bytes × (Session × List Call)
finish_read link_open out s = (out, maybe_send_window link_open (count_read (length out) s))

-- A read returns what it copied, with the session and its calls, or waits for the inbox.
pub data Read : Type 0 where
  returns : Bytes × (Session × List Call) → Read
  receives : Read

-- `leftover_off_` moved to `off`, and the leftover given up if it is used up.
unfoldable pub advance : ℕ → Bytes → Session → Session
advance off left s =
    if leb (length left) off
    then record s { leftover = none; leftover_off = 0 }
    else record s { leftover_off = off }

-- The branch that serves a leftover, of which bytes from `leftover_off` on are not yet read.
unfoldable pub read_leftover : Bool → ℕ → Bytes → Session → Bytes × (Session × List Call)
read_leftover link_open size left s =
    let n = min size (length left - s.leftover_off) in
    finish_read link_open (take n (drop s.leftover_off left)) (advance (s.leftover_off + n) left s)

-- The test of the state, before the wait.
unfoldable pub read_wait : SessionState → Session → Read
read_wait closed s = returns ([], (s, []))
read_wait half_closed_remote s = returns ([], (s, []))
read_wait _ s = receives

unfoldable pub read_of : Option Bytes → Bool → ℕ → Session → Read
read_of none link_open size s = read_wait s.state s
read_of (some left) link_open size s =
    if ltb s.leftover_off (length left)
    then returns (read_leftover link_open size left s)
    else read_wait s.state s

-- `read` into a buffer of `size` bytes.
unfoldable pub read_begin : Bool → ℕ → Session → Read
read_begin link_open size s = read_of s.leftover link_open size s

-- The part of a payload behind the first `n` bytes is kept, if there is one.
unfoldable pub keep : ℕ → Bytes → Session → Session
keep n pay s = if ltb n (length pay) then record s { leftover = some pay; leftover_off = n } else s

-- What the inbox answers: a payload, or `none` for an error or an empty pointer.
unfoldable pub read_resume : Bool → ℕ → Session → Option Bytes → Bytes × (Session × List Call)
read_resume link_open size s none = ([], (s, []))
read_resume link_open size s (some pay) =
    finish_read link_open (take (min size (length pay)) pay) (keep (min size (length pay)) pay s)

-- The bytes that the session holds for the next reads.
abbrev pub held_in : Option Bytes → ℕ → Bytes
held_in none off = []
held_in (some left) off = drop off left

abbrev pub held : Session → Bytes
held s = held_in s.leftover s.leftover_off
