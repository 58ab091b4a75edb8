-- ===== src/Transport/Session/Reading/Order.antt =====
-- Reads of src/transport/session.cpp return the bytes of the session in order, and lose none of
-- those that were taken off the inbox.
use shine.Prelude.{
  ℕ, ◌+◌, ◌-◌, ◌/◌, ◌≡◌, refl, sym, ◌∙◌, ap, ap₂, subst, inl, inr, List, [], ◌∷◌, ◌++◌, Option,
  none, some, Bool, true, false, arith, Bytes, length, take, drop, min, ltb, leb, Bool-cases,
  take-append-drop, length-drop, drop-drop, drop_all,
}
use shine.Transport.Session.{
  Session, SessionState, opened, half_closed_remote, closed, Call, send_inbox, tcp, on_peer_close,
  peer_closed, on_data,
}
use shine.Transport.Session.Reading.{
  maybe_send_window, count_read, finish_read, returns, receives, advance, keep, read_leftover,
  read_wait, read_of, read_begin, read_resume, held_in, held,
}

held-maybe_send_window :
    (link_open : Bool) (s : Session) → held (maybe_send_window link_open s).0 ≡ held s
unfolding maybe_send_window
held-maybe_send_window false s = refl
held-maybe_send_window true s = elim (Bool-cases (leb (s.our_initial_window / 2) s.recv_unacked)) [
  | inl e ↦ rw e refl
  | inr e ↦ rw e refl
]

-- What `finish_read` returns, and what the session then holds.
finish_read_view :
    (link_open : Bool) (out : Bytes) (s : Session)
    → ((finish_read link_open out s).0 ≡ out) × (held (finish_read link_open out s).1.0 ≡ held s)
unfolding finish_read count_read
finish_read_view link_open out s = (refl, held-maybe_send_window link_open _)

held-advance :
    (off : ℕ) (left : Bytes) (s : Session)
    → s.leftover ≡ some left
    → held (advance off left s) ≡ drop off left
unfolding advance
held-advance off left s h = elim (Bool-cases (leb (length left) off)) [
  | inl e ↦ rw e (sym (drop_all off left (ground arith)))
  | inr e ↦ rw e (ap (λ o. held_in o off) h)
]

held-keep : (n : ℕ) (pay : Bytes) (s : Session) → held s ≡ [] → held (keep n pay s) ≡ drop n pay
unfolding keep
held-keep n pay s h = elim (Bool-cases (ltb n (length pay))) [
  | inl e ↦ rw e refl
  | inr e ↦ rw e (h ∙ sym (drop_all n pay (ground arith)))
]

-- A finished read splits `before` into what it returns and what the session then holds.
abbrev Splits : Bytes → Bytes × (Session × List Call) → Type 0
Splits before r = before ≡ r.0 ++ held r.1.0

finish_read-Splits :
    (link_open : Bool) (out rest : Bytes) (s : Session)
    → held s ≡ rest
    → Splits (out ++ rest) (finish_read link_open out s)
finish_read-Splits link_open out rest s h =
    let (returned, kept) = finish_read_view link_open out s in sym (ap₂ ◌++◌ returned (kept ∙ h))

read_leftover-Splits :
    (link_open : Bool) (size : ℕ) (left : Bytes) (s : Session)
    → s.leftover ≡ some left
    → Splits (drop s.leftover_off left) (read_leftover link_open size left s)
unfolding read_leftover
read_leftover-Splits link_open size left s h =
    let n = min size (length left - s.leftover_off) in
    rw (take-append-drop n (drop s.leftover_off left)) at (
      finish_read-Splits link_open (take n (drop s.leftover_off left))
        (drop n (drop s.leftover_off left)) (advance (s.leftover_off + n) left s)
        (held-advance (s.leftover_off + n) left s h ∙ sym (drop-drop n s.leftover_off left)))

read_wait-Splits :
    (st : SessionState) (s : Session) (r : Bytes × (Session × List Call))
    → read_wait st s ≡ returns r
    → Splits (held s) r
unfolding read_wait
read_wait-Splits closed s r h = subst (Splits (held s)) {x = ([], (s, []))} {y = r} (cc) refl
read_wait-Splits half_closed_remote s r h =
    subst (Splits (held s)) {x = ([], (s, []))} {y = r} (cc) refl
read_wait-Splits _ s r h = absurd (cc)

read_of-Splits :
    (o : Option Bytes) (link_open : Bool) (size : ℕ) (s : Session)
    (r : Bytes × (Session × List Call))
    → s.leftover ≡ o
    → read_of o link_open size s ≡ returns r
    → Splits (held s) r
unfolding read_of
read_of-Splits none link_open size s r e h = read_wait-Splits s.state s r h
read_of-Splits (some left) link_open size s r e h =
    elim (Bool-cases (ltb s.leftover_off (length left))) [
      | inl t ↦
          let before : held s ≡ drop s.leftover_off left = ap (λ o. held_in o s.leftover_off) e in
          let served : returns (read_leftover link_open size left s) ≡ returns r = rw t at h in
          rw before (
            subst (Splits (drop s.leftover_off left)) {x = read_leftover link_open size left s}
              {y = r} (cc) (read_leftover-Splits link_open size left s e))
      | inr t ↦ read_wait-Splits s.state s r (rw t at h)
    ]

-- A read that finishes without the inbox returns the front of what the session holds, and the
-- session then holds the rest.
pub read_begin-held :
    (link_open : Bool) (size : ℕ) (s : Session) (r : Bytes × (Session × List Call))
    → read_begin link_open size s ≡ returns r
    → held s ≡ r.0 ++ held r.1.0
unfolding read_begin
read_begin-held link_open size s r h = read_of-Splits s.leftover link_open size s r refl h

read_of-receives :
    (o : Option Bytes) (link_open : Bool) (size : ℕ) (s : Session)
    → read_of o link_open size s ≡ receives
    → held_in o s.leftover_off ≡ []
unfolding read_of
read_of-receives none link_open size s h = refl
read_of-receives (some left) link_open size s h =
    elim (Bool-cases (ltb s.leftover_off (length left))) [
      | inl t ↦ absurd (ground arith)
      | inr t ↦ drop_all s.leftover_off left (ground arith)
    ]

-- A session that waits for the inbox holds nothing.
pub read_begin-receives :
    (link_open : Bool) (size : ℕ) (s : Session)
    → read_begin link_open size s ≡ receives
    → held s ≡ []
unfolding read_begin
read_begin-receives link_open size s h = read_of-receives s.leftover link_open size s h

-- A read that waited for the inbox returns the front of the payload that it got, and the session
-- then holds the rest.
pub read_resume-held :
    (link_open : Bool) (size : ℕ) (s : Session) (pay : Bytes)
    → read_begin link_open size s ≡ receives
    → let r = read_resume link_open size s (some pay) in pay ≡ r.0 ++ held r.1.0
unfolding read_begin read_resume
read_resume-held link_open size s pay h =
    let n = min size (length pay) in
    rw (take-append-drop n pay) at (
      finish_read-Splits link_open (take n pay) (drop n pay) (keep n pay s)
        (held-keep n pay s (read_of-receives s.leftover link_open size s h)))

read_of-nothing_held :
    (o : Option Bytes) (link_open : Bool) (size : ℕ) (s : Session)
    → held_in o s.leftover_off ≡ []
    → read_of o link_open size s ≡ read_wait s.state s
unfolding read_of
read_of-nothing_held none link_open size s h = refl
read_of-nothing_held (some left) link_open size s h =
    ground (arith, ap length h, length-drop s.leftover_off left)

wait_remote :
    (st : SessionState) (s : Session)
    → st ≡ half_closed_remote
    → read_wait st s ≡ returns ([], (s, []))
unfolding read_wait
wait_remote st s h = ground arith

-- Bytes can be lost at the end: a payload goes to the inbox, the peer closes, and the next read
-- reports the end of the stream without looking at the inbox.
pub read_begin-on_peer_close :
    (link_open : Bool) (size b : ℕ) (pay : Bytes) (s : Session)
    → s.protocol ≡ tcp
    → s.state ≡ opened
    → held s ≡ []
    → (on_data (b ∷ pay) s ≡ send_inbox (b ∷ pay) ∷ [])
      × (read_begin link_open size (on_peer_close s).0 ≡ returns ([], ((on_peer_close s).0, [])))
unfolding read_begin on_peer_close peer_closed on_data
read_begin-on_peer_close link_open size b pay s p st e = (
  rw p refl,
  read_of-nothing_held s.leftover link_open size (on_peer_close s).0 e
      ∙ wait_remote (peer_closed s.state) (on_peer_close s).0 (ap peer_closed st),
)
