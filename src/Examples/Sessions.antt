-- ===== src/Examples/Sessions.antt =====
-- Sessions: reads, windows, writes and the life of one.
use shine.Prelude.{◌+◌, ◌≤◌, ◌≡◌, refl, [], ◌∷◌, some, none, true, arith, Bytes}
use shine.Transport.Address.{default_address}
use shine.Transport.Session.{
  Session, opened, closed, tcp, send_inbox, on_data, on_peer_close, link_open,
}
use shine.Transport.Session.Reading.{
  read_begin, read_of, read_leftover, advance, finish_read, count_read, maybe_send_window,
  read_wait, returns, receives,
}
use shine.Transport.Session.Reading.Order.{read_begin-on_peer_close}
use shine.Transport.Session.Writing.{write_run}
use shine.Transport.Session.Writing.Chunks.{Sent, write_run-Sent}
use shine.Transport.Session.Lifecycle.{
  run, close_frames, may_send, shuts_down, closes, peer_closes, run-close_frames,
}

-- A session with a payload of which one byte has been read, one that has read it all, and a closed one.
abbrev half_read : Session
half_read = record {
  sid = 7;
  target = default_address;
  protocol = tcp;
  our_initial_window = 8;
  send_credit = 5;
  recv_unacked = 0;
  state = opened;
  leftover = some (1 ∷ 2 ∷ 3 ∷ []);
  leftover_off = 1;
  bytes_in = 0;
  bytes_out = 0;
}

abbrev idle : Session
idle = record half_read { leftover = none; leftover_off = 0 }

abbrev gone_session : Session
gone_session = record idle { state = closed }

abbrev payload_bytes : Bytes
payload_bytes = 1 ∷ 2 ∷ 3 ∷ 4 ∷ 5 ∷ []

abbrev after_one : Session
after_one = record half_read { leftover_off = 2; recv_unacked = 1; bytes_in = 1 }

half_read_once : read_begin true 1 half_read ≡ returns (2 ∷ [], (after_one, []))
unfolding read_begin read_of read_leftover advance finish_read count_read maybe_send_window
half_read_once = refl

idle_waits : read_begin true 2 idle ≡ receives
unfolding read_begin read_of read_wait
idle_waits = refl

read_begin-on_peer_close_example :
    (on_data payload_bytes idle ≡ send_inbox payload_bytes ∷ [])
    × (read_begin true 2 (on_peer_close idle).0 ≡ returns ([], ((on_peer_close idle).0, [])))
read_begin-on_peer_close_example =
    read_begin-on_peer_close true 2 1 (2 ∷ 3 ∷ 4 ∷ 5 ∷ []) idle refl refl refl

write_run-Sent_example : Sent 2 idle payload_bytes (write_run 6 2 idle payload_bytes)
write_run-Sent_example =
    write_run-Sent 2 (omega arith) 6 idle payload_bytes (omega arith) (omega arith)

run-close_frames_example :
    let r = run (shuts_down true ∷ peer_closes ∷ closes link_open ∷ []) idle in
    close_frames r.1 + may_send r.0.state ≤ 2
run-close_frames_example =
    run-close_frames (shuts_down true ∷ peer_closes ∷ closes link_open ∷ []) idle
