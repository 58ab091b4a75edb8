-- ===== src/Transport/Session/Reading/Windows.antt =====
-- The credit that reads of src/transport/session.cpp give back to the peer.
use shine.Prelude.{
  ℕ, ◌+◌, ◌/◌, ◌%◌, ◌^◌, ◌<◌, ◌≡◌, ◌⊎◌, refl, inl, inr, List, [], ◌∷◌, true, arith, Bytes, length,
  leb, Bool-cases,
}
use shine.Proto.Frame.{ShineFrame, window}
use shine.Transport.Session.{Session, Call, enqueue}
use shine.Transport.Session.Reading.{maybe_send_window, count_read, finish_read}

-- The credit that a frame, and that calls, grant.
abbrev pub grant : ShineFrame → ℕ
grant (window sid delta) = delta
grant _ = 0

abbrev pub granted : List Call → ℕ
granted [] = 0
granted (enqueue f ∷ calls) = grant f + granted calls
granted (_ ∷ calls) = granted calls

-- What is unacknowledged stays below half the window, or is nothing.
abbrev pub IsAcknowledged : Session → Type 0
IsAcknowledged s = (s.recv_unacked < s.our_initial_window / 2) ⊎ (s.recv_unacked ≡ 0)

maybe_send_window-granted :
    (s : Session)
    → let r = maybe_send_window true s in
      (r.0.recv_unacked + granted r.1 ≡ s.recv_unacked) × IsAcknowledged r.0
unfolding maybe_send_window
maybe_send_window-granted s = elim (Bool-cases (leb (s.our_initial_window / 2) s.recv_unacked)) [
  | inl e ↦ rw e (omega arith, inr refl)
  | inr e ↦ rw e (omega arith, inl (ground arith))
]

-- On an open link a read that copies `out` accounts for each byte once: what is granted to the peer
-- and what is still unacknowledged are what was unacknowledged before and the bytes copied, where
-- these fit 32 bits; and less than half the window, or nothing, stays unacknowledged.
pub finish_read-granted :
    (out : Bytes) (s : Session)
    → s.recv_unacked + length out < 2 ^ 32
    → let r = finish_read true out s in
      (r.1.0.recv_unacked + granted r.1.1 ≡ s.recv_unacked + length out) × IsAcknowledged r.1.0
unfolding finish_read count_read
finish_read-granted out s h =
    let (total, rest) = maybe_send_window-granted (count_read (length out) s) in
    (omega (arith, total), rest)

-- Below half the window nothing is granted.
pub finish_read-silent :
    (out : Bytes) (s : Session)
    → (s.recv_unacked + length out % 2 ^ 32) % 2 ^ 32 < s.our_initial_window / 2
    → (finish_read true out s).1.1 ≡ []
unfolding finish_read count_read maybe_send_window
finish_read-silent out s h = ground arith
