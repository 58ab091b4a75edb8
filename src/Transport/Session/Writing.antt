-- ===== src/Transport/Session/Writing.antt =====
-- `Session::write`, `sendTo` and `receiveFrom` of src/transport/session.cpp. A write suspends where
-- it waits for credit; `write_run` makes the rounds up to there.
pub mod Chunks
use shine.Prelude.{
  ℕ, zero, suc, ◌+◌, ◌-◌, ◌%◌, ◌^◌, List, [], ◌∷◌, ◌++◌, Option, none, some, ◌||◌, Bool, true,
  false, Bytes, codes, Result, ok, err, unavailable, failed_precondition, ◌>>◌, length, take, drop,
  min, leb, ◌==◌, if◌then◌else◌,
}
use shine.Proto.Frame.{ShineFrame, data_frame, udp_data}
use shine.Transport.Address.{Address, to_binary}
use shine.Transport.Session.{
  Session, SessionState, init, opened, half_closed_local, half_closed_remote, closed, Call, enqueue,
}

-- The tests at the start of `write` and `sendTo`.
unfoldable pub writable_state : SessionState → Result (Unit {0})
writable_state closed = err (failed_precondition (codes "session write side closed"))
writable_state half_closed_local = err (failed_precondition (codes "session write side closed"))
writable_state _ = ok tt

unfoldable pub write_check : Bool → Session → Result (Unit {0})
write_check link_open s =
    if link_open then writable_state s.state else err (unavailable (codes "link closed"))

-- `send_credit_.fetch_sub(chunk)` and `bytes_out_.fetch_add(chunk)`.
unfoldable pub charge : ℕ → Session → Session
charge chunk s = record s {
  send_credit = (s.send_credit + 2 ^ 64 - chunk) % 2 ^ 64;
  bytes_out = (s.bytes_out + chunk) % 2 ^ 64;
}

-- `send_credit_ <= 0`, on the bit pattern.
abbrev pub no_credit : Session → Bool
no_credit s = s.send_credit == 0 || leb (2 ^ 63) s.send_credit

abbrev pub chunk_size : ℕ → Session → Bytes → ℕ
chunk_size max_data_frame s p = min (length p) (min max_data_frame s.send_credit)

-- One round of the loop of `write` over the bytes that remain: it waits for credit, goes round
-- again with nothing done, or enqueues a DATA frame and goes on with what is left.
pub data Round : Type 0 where
  waits again : Round
  sends : ShineFrame → Session → Bytes → Round

unfoldable pub write_round : ℕ → Session → Bytes → Round
write_round max_data_frame s p =
    let chunk = chunk_size max_data_frame s p in
    if no_credit s
    then waits
    else if chunk == 0
    then again
    else sends (data_frame s.sid (take chunk p)) (charge chunk s) (drop chunk p)

-- The rounds until nothing remains, the write waits, or the fuel is used up: the session, the
-- frames enqueued in order, and the bytes that remain.
unfoldable pub write_run : ℕ → ℕ → Session → Bytes → Session × List ShineFrame × Bytes
write_run zero max_data_frame s p = (s, [], p)
write_run (suc fuel) max_data_frame s [] = (s, [], [])
write_run (suc fuel) max_data_frame s (b ∷ p) = elim (write_round max_data_frame s (b ∷ p)) [
  | waits ↦ (s, [], b ∷ p)
  | again ↦ write_run fuel max_data_frame s (b ∷ p)
  | sends f s' rest ↦ let r = write_run fuel max_data_frame s' rest in (r.0, f ∷ r.1, r.2)
]

-- `sendTo` on a datagram.
unfoldable pub send_to : Bool → Bytes → Address → Session → Result (Session × List Call)
send_to link_open payload target s =
    write_check link_open s
    >> ok (
      record s { bytes_out = (s.bytes_out + length payload) % 2 ^ 64 },
      enqueue (udp_data s.sid (to_binary target) payload) ∷ [],
    )

-- The test of `receiveFrom` before it waits for the UDP inbox.
unfoldable pub receive_check : SessionState → Result (Unit {0})
receive_check closed = err (unavailable (codes "session closed"))
receive_check half_closed_remote = err (unavailable (codes "session closed"))
receive_check _ = ok tt

-- `receiveFrom` on the answer of the UDP inbox, `none` for an error.
unfoldable pub receive_resume :
    Session → Option (Bytes × Address) → Result (Session × (Bytes × Address))
receive_resume s none = err (unavailable (codes "session closed"))
receive_resume s (some pay) = ok (record s { bytes_in = (s.bytes_in + length pay.0) % 2 ^ 64 }, pay)
