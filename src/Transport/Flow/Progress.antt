-- ===== src/Transport/Flow/Progress.antt =====
-- When a writer that waits for credit in src/transport/session.cpp can go on.
use shine.Prelude.{
  ℕ, ◌+◌, ◌/◌, ◌^◌, ◌<◌, ◌≤◌, ◌≡◌, refl, ◌∙◌, ap, inr, [], some, arith, true, length, length-append,
}
use shine.Transport.Address.{Address}
use shine.Transport.Session
use shine.Transport.Session.{Session, tcp}
use shine.Transport.Session.Reading.{read_resume, held}
use shine.Transport.Session.Reading.Order.{read_begin-held, read_resume-held}
use shine.Transport.Flow.{
  Flow, windows, Step, sends_chunk, delivers, reads_held, reads_inbox, grants, Reach, here, next,
}
use shine.Transport.Flow.Settles.{
  total, volume, total-append, read_begin-Settles, read_resume-Settles,
}
use shine.Transport.Flow.Credit.{Inv, Step-Inv, Reach-Inv}

-- The two ends when the session opens: the sender's credit is `w`, the receiver's own window `wr`.
unfoldable pub fresh : ℕ → Address → ℕ → ℕ → Flow
fresh sid target w wr = record {
  sender = Session.create sid target w w tcp;
  receiver = Session.create sid target wr wr tcp;
  data_way = [];
  inbox = [];
  window_way = [];
}

pub fresh-Inv : (sid : ℕ) (target : Address) (w wr : ℕ) → Inv w wr (fresh sid target w wr)
unfolding fresh Session.create
fresh-Inv sid target w wr = record {
  whole = omega arith;
  acknowledged = inr refl;
  is_tcp = refl;
  threshold = refl;
}

-- Where the credit that the sender began with is more than 0, below 2^32 and at least half of the
-- receiver's window, rounded down, a sender of an open TCP session with no credit left is never stuck:
-- bytes or grants are on the way, or the reader has bytes to read.
pub waits_for_something :
    (sid : ℕ) (target : Address) (w wr : ℕ) (fl : Flow)
    → w < 2 ^ 32
    → 0 < w
    → wr / 2 ≤ w
    → Reach (fresh sid target w wr) fl
    → fl.sender.send_credit ≡ 0
    → 0 < volume fl.data_way + volume fl.inbox + length (held fl.receiver) + total fl.window_way
waits_for_something sid target w wr fl small pos half r none_left =
    let v = Reach-Inv w wr small (fresh-Inv sid target w wr) r in
    omega (arith, v.whole, v.acknowledged, v.threshold, none_left)

-- What has never been granted.
abbrev Silent : ℕ → ℕ → Flow → Type 0
Silent w wr fl = Inv w wr fl × (total fl.window_way ≡ 0)

module _ (w wr : ℕ) (small : w < 2 ^ 32) (short : w < wr / 2) where
  Step-Silent : {fl last : Flow} → Silent w wr fl → Step fl last → Silent w wr last
  Step-Silent {fl} (v, q) (sends_chunk m p f s rest h) =
      (Step-Inv w wr small v (sends_chunk m p f s rest h), q)
  Step-Silent {fl} (v, q) (delivers p way e) = (Step-Inv w wr small v (delivers p way e), q)
  Step-Silent {fl} (v, q) (reads_held size out r h) =
      let bytes : length (held fl.receiver) ≡ length out + length (held r.0) = omega (
        arith,
        ap length (read_begin-held true size fl.receiver (out, r) h),
        length-append out (held r.0),
      ) in
      let s =
        read_begin-Settles size fl.receiver out r v.acknowledged
          (omega (arith, bytes, v.whole, small)) h in
      (
        Step-Inv w wr small v (reads_held size out r h),
        omega (
          arith,
          total-append fl.window_way (windows r.1),
          s.4 (omega (arith, v.whole, v.threshold, short, bytes)),
          q,
        ),
      )
  Step-Silent {fl} (v, q) (reads_inbox size pay box h e) =
      let r = read_resume true size fl.receiver (some pay) in
      let boxed : volume fl.inbox ≡ length pay + volume box = ap volume e in
      let bytes =
        ap length (read_resume-held true size fl.receiver pay h) ∙ length-append r.0 (held r.1.0) in
      let s = read_resume-Settles size fl.receiver pay (omega (arith, v.whole, boxed, small)) in
      (
        Step-Inv w wr small v (reads_inbox size pay box h e),
        omega (
          arith,
          total-append fl.window_way (windows r.1.1),
          s.4 (omega (arith, v.whole, v.threshold, short, bytes, boxed)),
          q,
        ),
      )
  Step-Silent {fl} (v, q) (grants delta way e) =
      (Step-Inv w wr small v (grants delta way e), omega (arith, ap total e, q))

  Reach-Silent : {fl last : Flow} → Silent w wr fl → Reach fl last → Silent w wr last
  Reach-Silent s here = s
  Reach-Silent s (next r st) = Step-Silent (Reach-Silent s r) st

-- Where half of the receiver's own window, rounded down, is more than the credit `w` that the sender
-- began with, and `w` is below 2^32, the receiver of a TCP session that stays open never grants
-- anything: all that is ever sent is the first `w` bytes, and the rest waits for ever.
pub never_granted :
    (sid : ℕ) (target : Address) (w wr : ℕ) (fl : Flow)
    → w < 2 ^ 32
    → w < wr / 2
    → Reach (fresh sid target w wr) fl
    → (total fl.window_way ≡ 0)
      × (fl.sender.send_credit
            + (volume fl.data_way
                + volume fl.inbox
                + length (held fl.receiver)
                + fl.receiver.recv_unacked)
          ≡ w)
never_granted sid target w wr fl small short r =
    let (v, q) =
      Reach-Silent w wr small short (fresh-Inv sid target w wr, unfold fresh in refl) r in
    (q, omega (arith, v.whole, q))
