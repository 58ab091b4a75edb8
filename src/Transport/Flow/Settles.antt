-- ===== src/Transport/Flow/Settles.antt =====
-- What a finished read of src/transport/session.cpp does to the credit of the receiver.
use shine.Prelude.{
  ℕ, ◌+◌, ◌-◌, ◌/◌, ◌^◌, ◌<◌, ◌≡◌, refl, ◌∙◌, ap, subst, inl, inr, List, [], ◌∷◌, ◌++◌, Option,
  some, none, true, arith, Bytes, length, take, drop, length-take, Bool-cases, min, ltb,
}
use shine.Proto.Frame.{window}
use shine.Transport.Session.{
  Session, SessionState, closed, half_closed_remote, tcp, Call, enqueue, on_data,
}
use shine.Transport.Session.Reading.{
  returns, read_begin, read_resume, read_of, read_leftover, read_wait, finish_read, advance, keep,
  count_read, maybe_send_window,
}
use shine.Transport.Session.Reading.Windows.{
  granted, IsAcknowledged, finish_read-granted, finish_read-silent,
}
use shine.Transport.Flow.{windows, to_inbox}

abbrev pub total : List ℕ → ℕ
total [] = 0
total (n ∷ ns) = n + total ns

abbrev pub volume : List Bytes → ℕ
volume [] = 0
volume (p ∷ ps) = length p + volume ps

pub total-append : (xs ys : List ℕ) → total (xs ++ ys) ≡ total xs + total ys
total-append [] ys = omega arith
total-append (x ∷ xs) ys = omega (arith, total-append xs ys)

pub volume-append : (xs ys : List Bytes) → volume (xs ++ ys) ≡ volume xs + volume ys
volume-append [] ys = omega arith
volume-append (x ∷ xs) ys = omega (arith, volume-append xs ys)

pub volume-on_data :
    (p : Bytes) (s : Session) → s.protocol ≡ tcp → volume (to_inbox (on_data p s)) ≡ length p
unfolding on_data
volume-on_data [] s h = omega arith
volume-on_data (b ∷ p) s h = rw h (omega arith)

pub total-windows : (calls : List Call) → total (windows calls) ≡ granted calls
total-windows [] = refl
total-windows (enqueue (window sid delta) ∷ calls) = omega (arith, total-windows calls)
total-windows (c ∷ calls) = omega (arith, total-windows calls)

-- What a finished read of `out` does to the receiver, as far as the credit is concerned.
abbrev pub Settles : Session → Bytes → Session × List Call → Type 0
Settles s out r =
    (r.0.recv_unacked + total (windows r.1) ≡ s.recv_unacked + length out)
    × IsAcknowledged r.0
    × (r.0.protocol ≡ s.protocol)
    × (r.0.our_initial_window ≡ s.our_initial_window)
    × (s.recv_unacked + length out < s.our_initial_window / 2 → total (windows r.1) ≡ 0)

-- The parts of a session that `advance` and `keep` leave alone.
abbrev Alike : Session → Session → Type 0
Alike s t =
    (t.recv_unacked ≡ s.recv_unacked)
    × (t.protocol ≡ s.protocol)
    × (t.our_initial_window ≡ s.our_initial_window)

finish_read_fixed :
    (out : Bytes) (s : Session)
    → ((finish_read true out s).1.0.protocol ≡ s.protocol)
      × ((finish_read true out s).1.0.our_initial_window ≡ s.our_initial_window)
unfolding finish_read maybe_send_window count_read
finish_read_fixed out s = ground arith

finish_read-Settles :
    (out : Bytes) (s t : Session)
    → Alike s t
    → s.recv_unacked + length out < 2 ^ 32
    → Settles s out (finish_read true out t).1
finish_read-Settles out s t (u, p, w) small =
    let (sum, low) = finish_read-granted out t (omega (arith, u, small)) in
    let (p', w') = finish_read_fixed out t in
    (
      omega (arith, total-windows (finish_read true out t).1.1, sum, u),
      low,
      p' ∙ p,
      w' ∙ w,
      λ below.
          ap (λ calls. total (windows calls))
            (finish_read-silent out t (omega (arith, u, w, below, small))),
    )

advance-Alike : (off : ℕ) (left : Bytes) (s : Session) → Alike s (advance off left s)
unfolding advance
advance-Alike off left s = ground arith

keep-Alike : (n : ℕ) (pay : Bytes) (s : Session) → Alike s (keep n pay s)
unfolding keep
keep-Alike n pay s = ground arith

read_wait-Settles :
    (st : SessionState) (s : Session) (out : Bytes) (r : Session × List Call)
    → IsAcknowledged s
    → read_wait st s ≡ returns (out, r)
    → Settles s out r
unfolding read_wait
read_wait-Settles closed s out r a h =
    subst (λ (x : Bytes × (Session × List Call)). Settles s x.0 x.1) {x = ([], (s, []))}
      {y = (out, r)} (cc) (omega arith, a, refl, refl, λ below. refl)
read_wait-Settles half_closed_remote s out r a h =
    subst (λ (x : Bytes × (Session × List Call)). Settles s x.0 x.1) {x = ([], (s, []))}
      {y = (out, r)} (cc) (omega arith, a, refl, refl, λ below. refl)
read_wait-Settles _ s out r a h = absurd (cc)

read_of-Settles :
    (o : Option Bytes) (size : ℕ) (s : Session) (out : Bytes) (r : Session × List Call)
    → IsAcknowledged s
    → s.recv_unacked + length out < 2 ^ 32
    → read_of o true size s ≡ returns (out, r)
    → Settles s out r
unfolding read_of read_leftover
read_of-Settles none size s out r a small h = read_wait-Settles s.state s out r a h
read_of-Settles (some left) size s out r a small h =
    elim (Bool-cases (ltb s.leftover_off (length left))) [
      | inl t ↦
          let n = min size (length left - s.leftover_off) in
          let front = take n (drop s.leftover_off left) in
          let s' = advance (s.leftover_off + n) left s in
          let whole : finish_read true front s' ≡ (out, r) = returned _ _ (rw t at h) in
          let same : front ≡ out = unfold finish_read in ap (λ x. x.0) whole in
          subst (Settles s out) (ap (λ x. x.1) whole) (
            subst (λ x. Settles s x (finish_read true front s').1) same
              (finish_read-Settles front s s' (advance-Alike _ left s)
                (omega (arith, ap length same, small))))
      | inr t ↦ read_wait-Settles s.state s out r a (rw t at h)
    ]
  where
    returned : (x y : Bytes × (Session × List Call)) → returns x ≡ returns y → x ≡ y
    returned x y e = cc

pub read_begin-Settles :
    (size : ℕ) (s : Session) (out : Bytes) (r : Session × List Call)
    → IsAcknowledged s
    → s.recv_unacked + length out < 2 ^ 32
    → read_begin true size s ≡ returns (out, r)
    → Settles s out r
unfolding read_begin
read_begin-Settles size s out r = read_of-Settles s.leftover size s out r

pub read_resume-Settles :
    (size : ℕ) (s : Session) (pay : Bytes)
    → s.recv_unacked + length pay < 2 ^ 32
    → let r = read_resume true size s (some pay) in Settles s r.0 r.1
unfolding read_resume
read_resume-Settles size s pay small =
    let n = min size (length pay) in
    let same : (finish_read true (take n pay) (keep n pay s)).0 ≡ take n pay =
      unfold finish_read in refl in
    rw same (
      finish_read-Settles (take n pay) s (keep n pay s) (keep-Alike n pay s)
        (omega (arith, length-take n pay, small)))
