-- ===== src/Transport/Flow/Credit.antt =====
-- Credit is neither made nor lost between the two ends of a session.
use shine.Prelude.{
  ℕ, ◌+◌, ◌-◌, ◌^◌, ◌<◌, ◌≤◌, ◌≡◌, ◌∙◌, ap, inl, inr, List, [], ◌∷◌, some, true, arith, Bytes,
  length, take, drop, length-append, length-take, Bool-cases, ◌==◌,
}
use shine.Proto.Frame.{ShineFrame, data_frame}
use shine.Transport.Session.{Session, tcp, Call, on_window, on_data}
use shine.Transport.Session.Reading.{read_resume, held}
use shine.Transport.Session.Reading.Order.{read_begin-held, read_begin-receives, read_resume-held}
use shine.Transport.Session.Reading.Windows.{IsAcknowledged}
use shine.Transport.Session.Writing.{sends, write_round, charge, no_credit, chunk_size}
use shine.Transport.Session.Writing.Chunks.{payload, send_credit-charge}
use shine.Transport.Flow.{
  Flow, windows, to_inbox, after_read, Step, sends_chunk, delivers, reads_held, reads_inbox, grants,
  Reach, here, next,
}
use shine.Transport.Flow.Settles.{
  total, volume, total-append, volume-append, volume-on_data, Settles, read_begin-Settles,
  read_resume-Settles,
}

-- Where the window stands: with the sender, on the way, with the receiver, and on the way back.
pub record Inv (w wr : ℕ) (fl : Flow) : Type 0 where
  pub whole :
      fl.sender.send_credit
        + volume fl.data_way
        + volume fl.inbox
        + length (held fl.receiver)
        + fl.receiver.recv_unacked
        + total fl.window_way
      ≡ w
  pub acknowledged : IsAcknowledged fl.receiver
  pub is_tcp : fl.receiver.protocol ≡ tcp
  pub threshold : fl.receiver.our_initial_window ≡ wr

-- A round of `write` spends the credit for what it sends.
round_spends :
    (m : ℕ) (s : Session) (p : Bytes) (f : ShineFrame) (s' : Session) (rest : Bytes)
    → s.send_credit < 2 ^ 63
    → write_round m s p ≡ sends f s' rest
    → s'.send_credit + length (payload f) ≡ s.send_credit
unfolding write_round
round_spends m s p f s' rest small h =
    let c = chunk_size m s p in
    elim (Bool-cases (no_credit s)) [
      | inl e ↦ absurd (ground arith)
      | inr e ↦ elim (Bool-cases (c == 0)) [
        | inl e' ↦ absurd (ground arith)
        | inr e' ↦
            let made : sends (data_frame s.sid (take c p)) (charge c s) (drop c p)
                ≡ sends f s' rest =
              rw (e, e') at h in
            let frame : f ≡ data_frame s.sid (take c p) = cc in
            let session : s' ≡ charge c s = cc in
            omega (
              arith,
              ap (λ g. length (payload g)) frame,
              ap (λ t. t.send_credit) session,
              length-take c p,
              send_credit-charge c s (omega arith) small,
            )
      ]
    ]

module _ (w wr : ℕ) (small : w < 2 ^ 32) where
  -- A read keeps the invariant, given what it takes from the receiver and from the inbox.
  after_read-Inv :
      (fl : Flow) (taken : ℕ) (out : Bytes) (r : Session × List Call)
      → Inv (w - taken) wr fl
      → taken ≤ w
      → length (held fl.receiver) + taken ≡ length out + length (held r.0)
      → Settles fl.receiver out r
      → Inv w wr (after_read fl r)
  after_read-Inv fl taken out r v le bytes (sum, low, p, i, _) = record {
    whole = omega (arith, v.whole, le, bytes, sum, total-append fl.window_way (windows r.1));
    acknowledged = low;
    is_tcp = p ∙ v.is_tcp;
    threshold = i ∙ v.threshold;
  }

  pub Step-Inv : {fl last : Flow} → Inv w wr fl → Step fl last → Inv w wr last
  Step-Inv {fl} v (sends_chunk m p f s rest h) = record {
    whole = omega (
      arith,
      v.whole,
      round_spends m fl.sender p f s rest (omega (arith, v.whole, small)) h,
      volume-append fl.data_way (payload f ∷ []),
    );
    acknowledged = v.acknowledged;
    is_tcp = v.is_tcp;
    threshold = v.threshold;
  }
  Step-Inv {fl} v (delivers p way e) = record {
    whole = omega (
      arith,
      v.whole,
      ap volume e,
      volume-append fl.inbox (to_inbox (on_data p fl.receiver)),
      volume-on_data p fl.receiver v.is_tcp,
    );
    acknowledged = v.acknowledged;
    is_tcp = v.is_tcp;
    threshold = v.threshold;
  }
  Step-Inv {fl} v (reads_held size out r h) =
      let bytes : length (held fl.receiver) ≡ length out + length (held r.0) = omega (
        arith,
        ap length (read_begin-held true size fl.receiver (out, r) h),
        length-append out (held r.0),
      ) in
      after_read-Inv fl 0 out r
        (record {
          whole = omega (arith, v.whole);
          acknowledged = v.acknowledged;
          is_tcp = v.is_tcp;
          threshold = v.threshold;
        })
        (omega arith) (omega (arith, bytes))
        (read_begin-Settles size fl.receiver out r v.acknowledged
          (omega (arith, bytes, v.whole, small)) h)
  Step-Inv {fl} v (reads_inbox size pay box h e) =
      let r = read_resume true size fl.receiver (some pay) in
      let none_held = ap length (read_begin-receives true size fl.receiver h) in
      let boxed : volume fl.inbox ≡ length pay + volume box = ap volume e in
      after_read-Inv (record fl { inbox = box }) (length pay) r.0 r.1
        (record {
          whole = omega (arith, v.whole, boxed);
          acknowledged = v.acknowledged;
          is_tcp = v.is_tcp;
          threshold = v.threshold;
        })
        (omega (arith, v.whole, boxed))
        (omega (
          arith,
          none_held,
          ap length (read_resume-held true size fl.receiver pay h),
          length-append r.0 (held r.1.0),
        ))
        (read_resume-Settles size fl.receiver pay (omega (arith, v.whole, boxed, small)))
  Step-Inv {fl} v (grants delta way e) =
      let sum : total fl.window_way ≡ delta + total way = ap total e in
      record {
        whole = unfold on_window in omega (arith, v.whole, sum, small);
        acknowledged = v.acknowledged;
        is_tcp = v.is_tcp;
        threshold = v.threshold;
      }

  -- In every state that the two ends of a TCP session can reach while it stays open, the credit of the
  -- sender, the bytes on the way, in the inbox and held by the receiver, what the receiver has not
  -- acknowledged and the grants on the way add up to the window that they began with.
  pub Reach-Inv : {fl last : Flow} → Inv w wr fl → Reach fl last → Inv w wr last
  Reach-Inv v here = v
  Reach-Inv v (next r s) = Step-Inv (Reach-Inv v r) s
