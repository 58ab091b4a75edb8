-- ===== src/Transport/Link/Heartbeat/Unanswered.antt =====
-- A peer that is gone: the ticks of `Link::heartbeatLoop` of src/transport/link.cpp while no PONG
-- arrives.
use shine.Prelude.{
  ℕ, ◌+◌, ◌*◌, ◌^◌, ◌<◌, ◌≤◌, ◌≡◌, refl, ◌∙◌, inl, inr, List, [], ◌∷◌, ◌++◌, true, false, arith,
  ltb, lt→ltb, le→ltb_false, Bool-cases, ◌==◌, All,
}
use shine.Proto.Frame.{ping}
use shine.Transport.Link.State.{Link, Output, writes}
use shine.Transport.Link.Heartbeat.{
  IsIdle, nonce_of, nonce_of_pos, ns, since, overdue, send_ping, heartbeat, tick, tick_idle,
  tick-closed,
}

-- Ticks one after another, each with its time and the number that its generator gives.
unfoldable pub ticks : List (ℕ × ℕ) → Link → Link × List Output
ticks [] l = (l, [])
ticks ((now, random) ∷ rest) l =
    let first = tick now random l in
    let others = ticks rest first.0 in (others.0, first.1 ++ others.1)

abbrev pub timeout_of : Link → ℕ
timeout_of l = l.opts.pong_timeout * 1000000000

-- Whether the PONG for a PING is overdue, without the wrap-around of the code.
overdue_late :
    (sent now : ℕ) (l : Link)
    → 0 < l.pending_ping_nonce
    → l.last_ping_sent_ns ≡ sent
    → sent + timeout_of l < now
    → now < 2 ^ 64
    → overdue now l ≡ true
overdue_late sent now l p at late small =
    let out : l.pending_ping_nonce == 0 ≡ false = ground arith in
    let past : ltb (ns l.opts.pong_timeout) (since now l.last_ping_sent_ns) ≡ true =
      lt→ltb _ _ (omega (arith, at, late, small)) in
    rw (out, past) refl

overdue_soon :
    (sent now : ℕ) (l : Link)
    → l.last_ping_sent_ns ≡ sent
    → sent ≤ now
    → now ≤ sent + timeout_of l
    → sent + timeout_of l < 2 ^ 64
    → overdue now l ≡ false
overdue_soon sent now l at after soon small =
    let past : ltb (ns l.opts.pong_timeout) (since now l.last_ping_sent_ns) ≡ false =
      le→ltb_false _ _ (omega (arith, at, after, soon, small)) in
    elim (Bool-cases (l.pending_ping_nonce == 0)) [ inl e ↦ rw e refl | inr e ↦ rw (e, past) refl ]

tick_in_time :
    (sent now random : ℕ) (l : Link)
    → l.closed ≡ false
    → l.handshake_done ≡ true
    → 0 < l.pending_ping_nonce
    → overdue now l ≡ false
    → tick now random l ≡ (l, [])
unfolding tick heartbeat send_ping
tick_in_time sent now random l c d p soon =
    let waits : l.pending_ping_nonce == 0 ≡ false = ground arith in rw (c, d, soon, waits) refl

-- Ticks at times in a range, the ends included.
abbrev pub Within : ℕ → ℕ → ℕ × ℕ → Type 0
Within from until at = (from ≤ at.0) × (at.0 ≤ until)

ticks_in_time :
    (sent : ℕ) (times : List (ℕ × ℕ)) (l : Link)
    → l.closed ≡ false
    → l.handshake_done ≡ true
    → 0 < l.pending_ping_nonce
    → l.last_ping_sent_ns ≡ sent
    → sent + timeout_of l < 2 ^ 64
    → All (Within sent (sent + timeout_of l)) times
    → ticks times l ≡ (l, [])
unfolding ticks
ticks_in_time sent [] l c d p at small h = refl
ticks_in_time sent ((now, random) ∷ times) l c d p at small ((after, soon), h) =
    let quiet =
      tick_in_time sent now random l c d p (overdue_soon sent now l at after soon small) in
    rw quiet (ticks_in_time sent times l c d p at small h)

-- A link that is idle (open, after the handshake, with no PING out and more than `ping_interval` since
-- the last PONG) sends a PING with a nonce that is not 0, and no frame arrives after it. Ticks that
-- come no later than `pong_timeout` after it write nothing and leave the link open; the first
-- one that comes later, at a time of less than 64 bits, closes it.
pub ticks_unanswered :
    (sent random late random' : ℕ) (times : List (ℕ × ℕ)) (l : Link)
    → IsIdle sent l
    → sent + timeout_of l < late
    → late < 2 ^ 64
    → All (Within sent (sent + timeout_of l)) times
    → let waiting = (tick sent random l).0 in
      let r = ticks times waiting in
      ((tick sent random l).1 ≡ writes (ping (nonce_of random)) ∷ [])
      × (0 < nonce_of random)
      × (r.1 ≡ [])
      × (r.0.closed ≡ false)
      × ((tick late random' r.0).0.closed ≡ true)
ticks_unanswered sent random late random' times l idle past small h =
    let first = tick_idle sent random l idle in
    let waiting : Link = record l {
      pending_ping_nonce = nonce_of random;
      last_ping_sent_ns = sent;
    } in
    let quiet =
      ticks_in_time sent times waiting idle.0 idle.1 (nonce_of_pos random) refl
        (omega (arith, past, small)) h in
    let closes =
      tick-closed late random' waiting idle.0 idle.1
      ∙ overdue_late sent late waiting (nonce_of_pos random) refl past small in
    rw (first, quiet) (refl, nonce_of_pos random, refl, idle.0, closes)
