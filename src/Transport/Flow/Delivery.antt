-- ===== src/Transport/Flow/Delivery.antt =====
-- What a reader of a session of src/transport/session.cpp gets of what the writer wrote.
use shine.Prelude.{
  ℕ, ◌-◌, ◌^◌, ◌<◌, ◌≡◌, refl, sym, ◌∙◌, ap, inl, inr, List, [], ◌∷◌, ◌++◌, some, true, arith,
  Bytes, length, take, drop, append_assoc, append-nil, length-drop, Bool-cases, ◌==◌,
}
use shine.Proto.Frame.{ShineFrame, data_frame}
use shine.Transport.Address.{Address}
use shine.Transport.Session
use shine.Transport.Session.{Session, tcp, on_data}
use shine.Transport.Session.Reading.{read_resume, held}
use shine.Transport.Session.Reading.Order.{read_begin-held, read_begin-receives, read_resume-held}
use shine.Transport.Session.Writing.{sends, write_round, charge, no_credit, chunk_size}
use shine.Transport.Session.Writing.Chunks.{payload}
use shine.Transport.Flow.{
  Flow, to_inbox, Step, sends_chunk, delivers, reads_held, reads_inbox, grants, Reach, here, next,
}
use shine.Transport.Flow.Credit.{Inv, Reach-Inv}
use shine.Transport.Flow.Progress.{fresh, fresh-Inv}

-- What a round of `write` takes off the data of its caller.
abbrev pub taken_off : Bytes → Bytes → Bytes
taken_off p rest = take (length p - length rest) p

-- The bytes that the writer gave away in a step, and those that the reader got.
unfoldable pub wrote : {fl last : Flow} → Step fl last → Bytes
wrote (sends_chunk m p f s rest h) = taken_off p rest
wrote _ = []

unfoldable pub got : {fl last : Flow} → Step fl last → Bytes
got (reads_held size out r h) = out
got {fl} (reads_inbox size pay box h e) = (read_resume true size fl.receiver (some pay)).0
got _ = []

-- The same over a run, in order.
unfoldable pub written : {fl last : Flow} → Reach fl last → Bytes
written here = []
written (next r s) = written r ++ wrote s

unfoldable pub received : {fl last : Flow} → Reach fl last → Bytes
received here = []
received (next r s) = received r ++ got s

abbrev pub flat : List Bytes → Bytes
flat [] = []
flat (p ∷ ps) = p ++ flat ps

-- The bytes between the two ends, those that the reader gets first in front.
abbrev pub between : Flow → Bytes
between fl = held fl.receiver ++ (flat fl.inbox ++ flat fl.data_way)

flat-append : (xs ys : List Bytes) → flat (xs ++ ys) ≡ flat xs ++ flat ys
flat-append [] ys = refl
flat-append (x ∷ xs) ys =
    ap (λ t. x ++ t) (flat-append xs ys) ∙ sym (append_assoc x (flat xs) (flat ys))

flat-on_data : (p : Bytes) (s : Session) → s.protocol ≡ tcp → flat (to_inbox (on_data p s)) ≡ p
unfolding on_data
flat-on_data [] s h = refl
flat-on_data (b ∷ p) s h = rw h (append-nil (b ∷ p))

-- The frame of a round carries what it takes off.
round_takes :
    (m : ℕ) (s : Session) (p : Bytes) (f : ShineFrame) (s' : Session) (rest : Bytes)
    → write_round m s p ≡ sends f s' rest
    → payload f ≡ taken_off p rest
unfolding write_round
round_takes m s p f s' rest h =
    let c = chunk_size m s p in
    elim (Bool-cases (no_credit s)) [
      | inl e ↦ absurd (ground arith)
      | inr e ↦ elim (Bool-cases (c == 0)) [
        | inl e' ↦ absurd (ground arith)
        | inr e' ↦
            let made : sends (data_frame s.sid (take c p)) (charge c s) (drop c p)
                ≡ sends f s' rest =
              rw (e, e') at h in
            let frame : f ≡ data_frame s.sid (take c p) = cc in
            let left : rest ≡ drop c p = cc in
            let size : length p - length rest ≡ c =
              omega (arith, ap length left, length-drop c p) in
            ap payload frame ∙ ap (λ n. take n p) (sym size)
      ]
    ]

module _ (w wr : ℕ) where
  Step-keeps_order :
      {fl last : Flow} (s : Step fl last)
      → Inv w wr fl
      → between fl ++ wrote s ≡ got s ++ between last
  unfolding wrote got
  Step-keeps_order {fl} (sends_chunk m p f s rest h) v =
      let way : flat (fl.data_way ++ (payload f ∷ [])) ≡ flat fl.data_way ++ taken_off p rest =
        flat-append fl.data_way (payload f ∷ [])
        ∙ ap (λ t. flat fl.data_way ++ t)
            (append-nil (payload f) ∙ round_takes m fl.sender p f s rest h) in
      append_assoc (held fl.receiver) _ _
      ∙ ap (λ t. held fl.receiver ++ t) (append_assoc (flat fl.inbox) _ _)
      ∙ ap (λ t. held fl.receiver ++ (flat fl.inbox ++ t)) (sym way)
  Step-keeps_order {fl} (delivers p way e) v =
      let box : flat (fl.inbox ++ to_inbox (on_data p fl.receiver)) ≡ flat fl.inbox ++ p =
        flat-append fl.inbox _
        ∙ ap (λ t. flat fl.inbox ++ t) (flat-on_data p fl.receiver v.is_tcp) in
      append-nil _
      ∙ ap (λ t. held fl.receiver ++ t)
          (ap (λ t. flat fl.inbox ++ t) (ap flat e)
            ∙ sym (append_assoc (flat fl.inbox) p (flat way))
            ∙ ap (λ t. t ++ flat way) (sym box))
  Step-keeps_order {fl} (reads_held size out r h) v =
      append-nil _
      ∙ ap (λ t. t ++ (flat fl.inbox ++ flat fl.data_way))
          (read_begin-held true size fl.receiver (out, r) h)
      ∙ append_assoc out (held r.0) _
  Step-keeps_order {fl} (reads_inbox size pay box h e) v =
      let r = read_resume true size fl.receiver (some pay) in
      append-nil _
      ∙ ap (λ t. t ++ (flat fl.inbox ++ flat fl.data_way))
          (read_begin-receives true size fl.receiver h)
      ∙ ap (λ t. t ++ flat fl.data_way) (ap flat e)
      ∙ append_assoc pay (flat box) _
      ∙ ap (λ t. t ++ (flat box ++ flat fl.data_way)) (read_resume-held true size fl.receiver pay h)
      ∙ append_assoc r.0 (held r.1.0) _
  Step-keeps_order (grants delta way e) v = append-nil _

  Reach-keeps_order :
      {fl last : Flow} (r : Reach fl last)
      → w < 2 ^ 32
      → Inv w wr fl
      → between fl ++ written r ≡ received r ++ between last
  unfolding written received
  Reach-keeps_order here small v = append-nil _
  Reach-keeps_order {fl} {last} (next {mid} r s) small v =
      sym (append_assoc (between fl) (written r) (wrote s))
      ∙ ap (λ t. t ++ wrote s) (Reach-keeps_order r small v)
      ∙ append_assoc (received r) (between mid) (wrote s)
      ∙ ap (λ t. received r ++ t) (Step-keeps_order s (Reach-Inv w wr small v r))
      ∙ sym (append_assoc (received r) (got s) (between last))

-- Between two ends of a TCP session that has just opened, with an initial credit below 2^32, while
-- neither end closes, resets or shuts down the session and both links stay open and keep the order:
-- in whatever order writes, reads and the arrival of DATA and WINDOW frames come, what the writer has
-- written is what the reader has got, followed by what the reader's session holds, what is in its
-- inbox and what is on the way. So the reader gets the bytes in order, and none is lost or doubled.
pub delivery :
    (sid : ℕ) (target : Address) (w wr : ℕ) (fl : Flow) (r : Reach (fresh sid target w wr) fl)
    → w < 2 ^ 32
    → written r ≡ received r ++ between fl
unfolding fresh Session.create
delivery sid target w wr fl r small = Reach-keeps_order w wr r small (fresh-Inv sid target w wr)
