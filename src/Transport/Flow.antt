-- ===== src/Transport/Flow.antt =====
-- Flow control between the two ends of a session of src/transport/session.cpp, in one direction: a
-- sender that writes, a receiver that reads, and what is on the way, while both links are open and
-- neither end closes, resets or shuts down the session: there are no such steps. The two links and the
-- inbox keep the order and lose nothing; nothing is assumed of when they deliver.
pub mod Settles
pub mod Credit
pub mod Progress
pub mod Delivery
use shine.Prelude.{ℕ, ◌+◌, ◌≡◌, List, [], ◌∷◌, ◌++◌, some, Bool, true, Bytes, length}
use shine.Proto.Frame.{ShineFrame, window}
use shine.Transport.Session.{Session, Call, enqueue, send_inbox, on_window, on_data}
use shine.Transport.Session.Reading.{Read, returns, receives, read_begin, read_resume}
use shine.Transport.Session.Writing.{Round, sends, write_round}
use shine.Transport.Session.Writing.Chunks.{payload}

pub record Flow : Type 0 where
  pub sender : Session
  pub receiver : Session
  -- DATA payloads on the way, payloads in the receiver's inbox, and WINDOW deltas on the way back.
  pub data_way : List Bytes
  pub inbox : List Bytes
  pub window_way : List ℕ

-- The WINDOW frames and the payloads for the inbox among the calls of a session.
abbrev pub windows : List Call → List ℕ
windows [] = []
windows (enqueue (window sid delta) ∷ calls) = delta ∷ windows calls
windows (_ ∷ calls) = windows calls

abbrev pub to_inbox : List Call → List Bytes
to_inbox [] = []
to_inbox (send_inbox p ∷ calls) = p ∷ to_inbox calls
to_inbox (_ ∷ calls) = to_inbox calls

-- What the receiver makes of a finished read.
abbrev pub after_read : Flow → Session × List Call → Flow
after_read fl r = record fl { receiver = r.0; window_way = fl.window_way ++ windows r.1 }

pub data Step (fl : Flow) : Flow → Type 0 where
  -- A round of `write` on any data, with any bound on a frame.
  sends_chunk :
      (m : ℕ) (p : Bytes) (f : ShineFrame) (s : Session) (rest : Bytes)
      → write_round m fl.sender p ≡ sends f s rest
      → Step fl (record fl { sender = s; data_way = fl.data_way ++ (payload f ∷ []) })
  -- The receiver's link hands the next DATA frame to the session.
  delivers :
      (p : Bytes) (way : List Bytes)
      → fl.data_way ≡ p ∷ way
      → Step fl (record fl { data_way = way; inbox = fl.inbox ++ to_inbox (on_data p fl.receiver) })
  -- A read that need not wait, and one that gets the next payload of the inbox.
  reads_held :
      (size : ℕ) (out : Bytes) (r : Session × List Call)
      → read_begin true size fl.receiver ≡ returns (out, r)
      → Step fl (after_read fl r)
  reads_inbox :
      (size : ℕ) (pay : Bytes) (box : List Bytes)
      → read_begin true size fl.receiver ≡ receives
      → fl.inbox ≡ pay ∷ box
      → Step fl
          (after_read (record fl { inbox = box }) (read_resume true size fl.receiver (some pay)).1)
  -- The sender's link hands the next WINDOW frame to the session.
  grants :
      (delta : ℕ) (way : List ℕ)
      → fl.window_way ≡ delta ∷ way
      → Step fl (record fl { sender = (on_window delta fl.sender).0; window_way = way })

pub data Reach (fl : Flow) : Flow → Type 0 where
  here : Reach fl fl
  next : {mid last : Flow} → Reach fl mid → Step mid last → Reach fl last
