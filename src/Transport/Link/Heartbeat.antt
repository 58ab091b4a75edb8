-- ===== src/Transport/Link/Heartbeat.antt =====
-- `Link::heartbeatLoop` of src/transport/link.cpp: one tick.
pub mod Unanswered
use shine.Prelude.{
  ℕ, ◌+◌, ◌-◌, ◌*◌, ◌%◌, ◌^◌, ◌<◌, ◌≡◌, refl, ap, inl, inr, List, [], ◌∷◌, Bool, true, false, not,
  ◌&&◌, arith, ltb, ◌==◌, if◌then◌else◌, Bool-cases, ==_refl,
}
use shine.Proto.Frame.{ping, pong}
use shine.Transport.Link.State.{Link, Output, writes, enqueue_frame, fail_link}
use shine.Transport.Link.Closing.{fail_link_closed}
use shine.Transport.Link.Dispatch.{dispatch_frame, on_pong}

-- Seconds in nanoseconds, and the difference of two times, in 64 bits.
abbrev pub ns : ℕ → ℕ
ns seconds = seconds * 1000000000 % 2 ^ 64

abbrev pub since : ℕ → ℕ → ℕ
since now before = (now + 2 ^ 64 - before) % 2 ^ 64

-- The second test of the tick: a ping is sent when the link has been idle. The generator gave
-- `random`, of which 0 is replaced by 1.
unfoldable pub send_ping : ℕ → ℕ → Link → Link × List Output
send_ping now random l =
    let nonce = if random == 0 then 1 else random in
    if l.pending_ping_nonce == 0 && ltb (ns l.opts.ping_interval) (since now l.last_pong_ns)
    then (
      record l { pending_ping_nonce = nonce; last_ping_sent_ns = now },
      enqueue_frame l (ping nonce),
    )
    else (l, [])

-- A tick of a loop that still runs, after the handshake.
unfoldable pub heartbeat : ℕ → ℕ → Link → Link × List Output
heartbeat now random l =
    if not (l.pending_ping_nonce == 0)
      && ltb (ns l.opts.pong_timeout) (since now l.last_ping_sent_ns)
    then fail_link l
    else send_ping now random l

unfoldable pub tick : ℕ → ℕ → Link → Link × List Output
tick now random l =
    if l.closed then (l, []) else if l.handshake_done then heartbeat now random l else (l, [])

send_ping_open : (now random : ℕ) (l : Link) → (send_ping now random l).0.closed ≡ l.closed
unfolding send_ping
send_ping_open now random l =
    elim (Bool-cases
      (l.pending_ping_nonce == 0 && ltb (ns l.opts.ping_interval) (since now l.last_pong_ns))) [
        | inl h ↦ rw h refl
        | inr h ↦ rw h refl
      ]

-- Whether the PONG for a PING is overdue.
abbrev pub overdue : ℕ → Link → Bool
overdue now l =
    not (l.pending_ping_nonce == 0) && ltb (ns l.opts.pong_timeout) (since now l.last_ping_sent_ns)

-- A tick on an open link after the handshake closes it exactly when the PONG is overdue.
pub tick-closed :
    (now random : ℕ) (l : Link)
    → l.closed ≡ false
    → l.handshake_done ≡ true
    → (tick now random l).0.closed ≡ overdue now l
unfolding tick heartbeat
tick-closed now random l c d =
    rw (c, d)
      (elim (Bool-cases (overdue now l)) [
        | inl h ↦ rw h (fail_link_closed _)
        | inr h ↦ rw h (send_ping_open _ _ _)
      ])

-- The nonce of a PING.
abbrev pub nonce_of : ℕ → ℕ
nonce_of random = if random == 0 then 1 else random

pub nonce_of_pos : (random : ℕ) → 0 < nonce_of random
nonce_of_pos random = ground arith

-- A link that is idle and waits for no PONG.
abbrev pub IsIdle : ℕ → Link → Type 0
IsIdle now l =
    (l.closed ≡ false)
    × (l.handshake_done ≡ true)
    × (l.pending_ping_nonce ≡ 0)
    × (ltb (ns l.opts.ping_interval) (since now l.last_pong_ns) ≡ true)

pub tick_idle :
    (now random : ℕ) (l : Link)
    → IsIdle now l
    → tick now random l ≡ (
      record l { pending_ping_nonce = nonce_of random; last_ping_sent_ns = now },
      writes (ping (nonce_of random)) ∷ [],
    )
unfolding tick heartbeat send_ping enqueue_frame
tick_idle now random l (c, d, p, i) = rw (c, d, p, i) refl

-- A link that is idle sends one PING with a nonce that is not 0. An open peer answers it with the
-- PONG of the same nonce, and once that is dispatched, the next tick, at any time, leaves the link
-- open.
pub tick-answered :
    (now random t t' random' : ℕ) (l peer : Link)
    → IsIdle now l
    → peer.closed ≡ false
    → (n : ℕ) × (0 < n)
      × ((tick now random l).1 ≡ writes (ping n) ∷ [])
      × ((dispatch_frame t peer (ping n)).1 ≡ writes (pong n) ∷ [])
      × ((tick t' random' (dispatch_frame t (tick now random l).0 (pong n)).0).0.closed ≡ false)
unfolding dispatch_frame enqueue_frame on_pong
tick-answered now random t t' random' l peer idle up = (
  nonce_of random,
  nonce_of_pos random,
  ap (λ r. r.1) (tick_idle now random l idle),
  rw up refl,
  rw (tick_idle now random l idle, ==_refl (nonce_of random))
      (tick-closed t' random' _ idle.0 idle.1),
)
