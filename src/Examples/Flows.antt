-- ===== src/Examples/Flows.antt =====
-- Flow control with equal windows and with windows that do not fit.
use shine.Prelude.{◌++◌, ◌+◌, ◌<◌, ◌≡◌, refl, [], ◌∷◌, arith, length, Bytes}
use shine.Proto.Frame.{data_frame}
use shine.Transport.Address.{default_address}
use shine.Transport.Session.{Session, create, tcp}
use shine.Transport.Session.Reading.{held}
use shine.Transport.Session.Writing.{write_round, sends, charge}
use shine.Transport.Flow.{Flow, Reach, here, next, sends_chunk}
use shine.Transport.Flow.Settles.{total, volume}
use shine.Transport.Flow.Credit.{Inv, Reach-Inv}
use shine.Transport.Flow.Delivery.{written, received, between, delivery}
use shine.Transport.Flow.Progress.{fresh, fresh-Inv, waits_for_something, never_granted}

abbrev text : Bytes
text = 1 ∷ 2 ∷ 3 ∷ 4 ∷ []

-- The flow after a write of all the credit.
abbrev spent : Session
spent = record (create 1 default_address 4 4 tcp) { send_credit = 0; bytes_out = 4 }

abbrev after_write : Flow
after_write = record (fresh 1 default_address 4 4) { sender = spent; data_way = text ∷ [] }

write_all :
    write_round 64 (fresh 1 default_address 4 4).sender text ≡ sends (data_frame 1 text) spent []
unfolding fresh write_round charge create
write_all = refl

reached : Reach (fresh 1 default_address 4 4) after_write
unfolding fresh create
reached = next here (sends_chunk 64 text (data_frame 1 text) spent [] write_all)

waits_for_something_example :
    0 < volume (text ∷ []) + volume [] + length (held after_write.receiver) + total []
unfolding fresh create
waits_for_something_example =
    waits_for_something 1 default_address 4 4 after_write (omega arith) (omega arith) (omega arith)
      reached refl

Reach-Inv_example : Inv 4 4 after_write
Reach-Inv_example = Reach-Inv 4 4 (omega arith) (fresh-Inv 1 default_address 4 4) reached

never_granted_example :
    let fl = fresh 1 default_address 4 10 in
    (total fl.window_way ≡ 0)
    × (fl.sender.send_credit
          + (volume fl.data_way
              + volume fl.inbox
              + length (held fl.receiver)
              + fl.receiver.recv_unacked)
        ≡ 4)
never_granted_example =
    never_granted 1 default_address 4 10 (fresh 1 default_address 4 10) (omega arith) (omega arith)
      here

delivery_example : written reached ≡ received reached ++ between after_write
delivery_example = delivery 1 default_address 4 4 after_write reached (omega arith)
