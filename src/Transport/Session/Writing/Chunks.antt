-- ===== src/Transport/Session/Writing/Chunks.antt =====
-- How `Session::write` of src/transport/session.cpp cuts the data and spends the credit.
use shine.Prelude.{
  ℕ, zero, suc, ◌+◌, ◌^◌, ◌<◌, ◌≤◌, ◌≡◌, refl, subst, ◌∙◌, ap, inl, inr, List, [], ◌∷◌, ◌++◌, false,
  arith, Bytes, All, length, take, drop, min, ◌==◌, Bool-cases, length-append, length-take,
  length-drop, take-append-drop, append_assoc,
}
use shine.Proto.Frame.{ShineFrame, data_frame}
use shine.Transport.Session.{Session}
use shine.Transport.Session.Writing.{
  charge, no_credit, chunk_size, waits, sends, write_round, write_run,
}

-- The payload of a DATA frame, and those of many in order.
abbrev pub payload : ShineFrame → Bytes
payload (data_frame sid p) = p
payload _ = []

abbrev pub payloads : List ShineFrame → Bytes
payloads [] = []
payloads (f ∷ fs) = payload f ++ payloads fs

-- A DATA frame of session `sid` with 1 to `m` bytes.
abbrev pub IsChunk : ℕ → ℕ → ShineFrame → Type 0
IsChunk m sid (data_frame sid' p) = (sid' ≡ sid) × (0 < length p) × (length p ≤ m)
IsChunk m sid _ = ⊥

-- What a run of `write` achieves.
pub record Sent (m : ℕ) (s : Session) (p : Bytes) (r : Session × List ShineFrame × Bytes)
    : Type 0 where
  pub order : payloads r.1 ++ r.2 ≡ p
  pub amount : length (payloads r.1) ≡ min (length p) s.send_credit
  pub credit : r.0.send_credit + length (payloads r.1) ≡ s.send_credit
  pub chunks : All (IsChunk m s.sid) r.1
  pub same_session : r.0.sid ≡ s.sid

round_waits : (m : ℕ) (s : Session) (p : Bytes) → s.send_credit ≡ 0 → write_round m s p ≡ waits
unfolding write_round
round_waits m s p h = ground arith

round_sends :
    (m : ℕ) (s : Session) (p : Bytes)
    → 0 < s.send_credit
    → s.send_credit < 2 ^ 63
    → 0 < chunk_size m s p
    → write_round m s p
      ≡ sends
          (data_frame s.sid (take (chunk_size m s p) p))
          (charge (chunk_size m s p) s)
          (drop (chunk_size m s p) p)
unfolding write_round
round_sends m s p some_credit small pos =
    let credit : no_credit s ≡ false = ground arith in
    let chunk : (chunk_size m s p == 0) ≡ false = ground arith in rw (credit, chunk) refl

run_waits :
    (fuel m b : ℕ) (s : Session) (p : Bytes)
    → write_round m s (b ∷ p) ≡ waits
    → write_run (suc fuel) m s (b ∷ p) ≡ (s, [], b ∷ p)
unfolding write_run
run_waits fuel m b s p h = rw (h, write_run)

run_sends :
    (fuel m b : ℕ) (s s' : Session) (p rest : Bytes) (f : ShineFrame)
    → write_round m s (b ∷ p) ≡ sends f s' rest
    → write_run (suc fuel) m s (b ∷ p) ≡ (let r = write_run fuel m s' rest in (r.0, f ∷ r.1, r.2))
unfolding write_run
run_sends fuel m b s s' p rest f h = rw (h, write_run)

-- The credit behind a chunk that it covers.
pub send_credit-charge :
    (c : ℕ) (s : Session)
    → c ≤ s.send_credit
    → s.send_credit < 2 ^ 63
    → (charge c s).send_credit + c ≡ s.send_credit
unfolding charge
send_credit-charge c s h small = omega arith

sid-charge : (c : ℕ) (s : Session) → (charge c s).sid ≡ s.sid
unfolding charge
sid-charge c s = refl

-- What a chunk and the rounds behind it achieve together.
Sent-sends :
    (m c : ℕ) (s : Session) (p : Bytes) (r : Session × List ShineFrame × Bytes)
    → 0 < c
    → c ≤ m
    → c ≤ length p
    → c ≤ s.send_credit
    → s.send_credit < 2 ^ 63
    → Sent m (charge c s) (drop c p) r
    → Sent m s p (r.0, data_frame s.sid (take c p) ∷ r.1, r.2)
Sent-sends m c s p r pos le_m le_p le_credit small v =
    let taken : length (take c p) ≡ c = omega (arith, length-take c p) in
    let left = send_credit-charge c s le_credit small in
    let sum = length-append (take c p) (payloads r.1) in
    record {
      order =
          append_assoc (take c p) (payloads r.1) r.2
          ∙ ap (◌++◌ (take c p)) v.order
          ∙ take-append-drop c p;
      amount = omega (arith, sum, taken, v.amount, left, length-drop c p);
      credit = omega (arith, sum, taken, v.credit, left);
      chunks = (
        (refl, omega (arith, taken), omega (arith, taken)),
        subst (λ sid. All (IsChunk m sid) r.1) (sid-charge c s) v.chunks,
      );
      same_session = v.same_session ∙ sid-charge c s;
    }

module _ (m : ℕ) (pos : 0 < m) where
  -- A write with credit cuts its data into DATA frames of 1 to `max_data_frame` bytes, in order; it
  -- sends as many bytes as the data and the credit allow, spends exactly that credit, and keeps the
  -- rest for the next WINDOW. One unit of fuel for each byte, and one more, is enough.
  pub write_run-Sent :
      (fuel : ℕ) (s : Session) (p : Bytes)
      → length p < fuel
      → s.send_credit < 2 ^ 63
      → Sent m s p (write_run fuel m s p)
  write_run-Sent zero s p enough small = absurd (omega arith)
  write_run-Sent (suc fuel) s [] enough small =
      unfold write_run in
      record {
        order = refl;
        amount = omega arith;
        credit = omega arith;
        chunks = tt;
        same_session = refl;
      }
  write_run-Sent (suc fuel) s (b ∷ p) enough small = elim (Bool-cases (s.send_credit == 0)) [
    | inl e ↦
        let none_left : s.send_credit ≡ 0 = ground arith in
        rw (run_waits fuel m b s p (round_waits m s (b ∷ p) none_left)) (record {
          order = refl;
          amount = omega (arith, none_left);
          credit = omega arith;
          chunks = tt;
          same_session = refl;
        })
    | inr e ↦
        let some_credit : 0 < s.send_credit = ground arith in
        let c = chunk_size m s (b ∷ p) in
        let c_pos : 0 < c = omega (arith, some_credit, pos) in
        let ih =
          write_run-Sent fuel (charge c s) (drop c (b ∷ p))
            (omega (arith, length-drop c (b ∷ p), c_pos))
            (omega (arith, send_credit-charge c s (omega arith) small)) in
        rw (run_sends fuel m b s _ p _ _ (round_sends m s (b ∷ p) some_credit small c_pos))
          (Sent-sends m c s (b ∷ p) _ c_pos (omega arith) (omega arith) (omega arith) small ih)
  ]
