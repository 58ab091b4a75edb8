-- ===== src/Transport/Session/Lifecycle.antt =====
-- The states of a session of src/transport/session.cpp over any history of calls on it.
use shine.Prelude.{
  ℕ, ◌+◌, ◌≤◌, ◌≡◌, refl, ◌∙◌, ap, List, [], ◌∷◌, ◌++◌, Bool, true, false, arith, append-nil, err,
  codes, failed_precondition,
}
use shine.Proto.Frame.{close}
use shine.Transport.Session.{
  Session, SessionState, init, opened, half_closed_local, half_closed_remote, closed, Protocol, tcp,
  udp, Call, enqueue, erase_session, LinkRef, gone, link_closed, link_open, shutdown_from,
  shutdown_write, close_from, close_link, close_session, close_channels, close_inboxes, peer_closed,
  on_peer_close, on_reset, on_window, try_send_credit,
}
use shine.Transport.Session.Writing.{writable_state, write_check}

-- The calls that change the state or the credit of a session.
pub data Event : Type 0 where
  shuts_down : Bool → Event
  closes : LinkRef → Event
  peer_closes resets : Event
  grants : ℕ → Event

pub step : Event → Session → Session × List Call
step (shuts_down up) s = shutdown_write up s
step (closes link) s = close_session link s
step peer_closes s = on_peer_close s
step resets s = on_reset s
step (grants delta) s = on_window delta s

-- The session after a history, and all the calls that it made.
pub run : List Event → Session → Session × List Call
run [] s = (s, [])
run (e ∷ es) s = let r = step e s in let rest = run es r.0 in (rest.0, r.1 ++ rest.1)

-- How many CLOSE frames are among the calls.
abbrev pub is_close : Call → ℕ
is_close (enqueue (close sid reason)) = 1
is_close _ = 0

abbrev pub close_frames : List Call → ℕ
close_frames [] = 0
close_frames (c ∷ calls) = is_close c + close_frames calls

-- How many a session in a state may still send.
abbrev pub may_send : SessionState → ℕ
may_send init = 2
may_send opened = 2
may_send half_closed_local = 1
may_send half_closed_remote = 1
may_send closed = 0

close_frames-append :
    (xs ys : List Call) → close_frames (xs ++ ys) ≡ close_frames xs + close_frames ys
close_frames-append [] ys = omega arith
close_frames-append (x ∷ xs) ys = omega (arith, close_frames-append xs ys)

close_channels_silent : (p : Protocol) → close_frames (close_channels p) ≡ 0
unfolding close_channels
close_channels_silent tcp = refl
close_channels_silent udp = refl

close_inboxes_silent : (p : Protocol) → close_frames (close_inboxes p) ≡ 0
unfolding close_inboxes
close_inboxes_silent tcp = refl
close_inboxes_silent udp = refl

-- The result of a call keeps to the budget of the state before it.
abbrev Within : SessionState → Session × List Call → Type 0
Within st r = close_frames r.1 + may_send r.0.state ≤ may_send st

shutdown_from-Within :
    (st : SessionState) (s : Session) → s.state ≡ st → Within st (shutdown_from st s)
unfolding shutdown_from
shutdown_from-Within opened s h = omega arith
shutdown_from-Within half_closed_remote s h = omega arith
shutdown_from-Within _ s h = omega (arith, ap may_send h)

close_link_one : (link : LinkRef) (sid : ℕ) → close_frames (close_link link sid) ≤ 1
unfolding close_link
close_link_one gone sid = omega arith
close_link_one link_closed sid = omega arith
close_link_one link_open sid = omega arith

close_from-Within :
    (st : SessionState) (link : LinkRef) (s : Session)
    → s.state ≡ st
    → Within st (close_from st link s)
unfolding close_from
close_from-Within closed link s h = omega (arith, close_channels_silent s.protocol, ap may_send h)
close_from-Within _ link s h = omega (
  arith,
  close_frames-append (close_link link s.sid) (close_channels s.protocol),
  close_channels_silent s.protocol,
  close_link_one link s.sid,
)

may_send-peer_closed : (st : SessionState) → may_send (peer_closed st) ≤ may_send st
unfolding peer_closed
may_send-peer_closed opened = omega arith
may_send-peer_closed half_closed_local = omega arith
may_send-peer_closed _ = omega arith

window_silent : (p : Protocol) → close_frames (elim p [ tcp ↦ try_send_credit ∷ [] | udp ↦ [] ]) ≡ 0
window_silent tcp = refl
window_silent udp = refl

step-Within : (e : Event) (s : Session) → Within s.state (step e s)
unfolding step shutdown_write close_session on_peer_close on_reset on_window
step-Within (shuts_down false) s = omega arith
step-Within (shuts_down true) s = shutdown_from-Within s.state s refl
step-Within (closes link) s = close_from-Within s.state link s refl
step-Within peer_closes s =
    omega (arith, close_inboxes_silent s.protocol, may_send-peer_closed s.state)
step-Within resets s = omega (arith, close_channels_silent s.protocol)
step-Within (grants delta) s = omega (arith, window_silent s.protocol)

-- Over any history a session sends at most two CLOSE frames, at most one from a half-closed state
-- and none once it is closed; what it may send afterwards counts against the same budget.
pub run-close_frames :
    (es : List Event) (s : Session)
    → close_frames (run es s).1 + may_send (run es s).0.state ≤ may_send s.state
unfolding run
run-close_frames [] s = omega arith
run-close_frames (e ∷ es) s =
    let r = step e s in
    omega (arith, close_frames-append r.1 (run es r.0).1, run-close_frames es r.0, step-Within e s)

closed_of_budget : (st : SessionState) → may_send st ≡ 0 → st ≡ closed
closed_of_budget init h = absurd (omega arith)
closed_of_budget opened h = absurd (omega arith)
closed_of_budget half_closed_local h = absurd (omega arith)
closed_of_budget half_closed_remote h = absurd (omega arith)
closed_of_budget closed h = refl

-- No history opens a closed session again, and a write to it on an open link is refused.
pub run_closed :
    (es : List Event) (s : Session)
    → s.state ≡ closed
    → ((run es s).0.state ≡ closed)
      × (write_check true (run es s).0
          ≡ err (failed_precondition (codes "session write side closed")))
unfolding write_check writable_state
run_closed es s h =
    let still : (run es s).0.state ≡ closed =
      closed_of_budget _ (omega (arith, run-close_frames es s, ap may_send h)) in
    (still, ap writable_state still)

-- A session that both sides have closed, in either order, is closed and has sent one CLOSE frame; it
-- takes itself off the link where its own side closed last.
pub both_sides_close :
    (s : Session)
    → s.state ≡ opened
    → let a = run (shuts_down true ∷ peer_closes ∷ []) s in
      let b = run (peer_closes ∷ shuts_down true ∷ []) s in
      (a.0.state ≡ closed)
      × (b.0.state ≡ closed)
      × (a.1 ≡ enqueue (close s.sid []) ∷ close_inboxes s.protocol)
      × (b.1 ≡ close_inboxes s.protocol ++ (erase_session s.sid ∷ enqueue (close s.sid []) ∷ []))
unfolding run step shutdown_write on_peer_close peer_closed shutdown_from
both_sides_close s h =
    let first = ap (λ st. shutdown_from st s) h in
    let second = ap (λ st. shutdown_from (peer_closed st) (on_peer_close s).0) h in
    (
      ap (λ r. peer_closed r.0.state) first,
      ap (λ r. r.0.state) second,
      ap (λ r. r.1 ++ (close_inboxes r.0.protocol ++ [])) first
          ∙ ap (◌∷◌ (enqueue (close s.sid []))) (append-nil (close_inboxes s.protocol)),
      ap (λ r. close_inboxes s.protocol ++ (r.1 ++ [])) second,
    )
