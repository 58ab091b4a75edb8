-- ===== src/Examples/Links.antt =====
-- A link: its handshakes, its heartbeat, its sessions and its end.
use shine.Prelude.{
  ℕ, subst, List, All, get_elem?, ◌<◌, ◌≡◌, ◌≢◌, ◌⊎◌, ◌++◌, refl, append-nil, [], ◌∷◌, some, none,
  true, false, not, Bytes, codes, bytes_eq, ok, arith,
}
use shine.Proto.Frame.{ShineFrame, data_frame, close, ok_frame, auth, ping, pong, new, ack}
use shine.Transport.Address.{from_ipv4, default_address, parse_binary, parse_typed}
use shine.Transport.Session.{Session, opened, tcp}
use shine.Transport.Session
use shine.Transport.Link.State.{
  Link, Options, writes, starts_handler, lookup, find_session, add_session, open_session, fail_link,
  enqueue_frame,
}
use shine.Transport.Link.Writer.{writer_loop, on_message, while_open}
use shine.Transport.Link.Writer.Crossing.{enqueued, frames_cross}
use shine.Transport.Link.Opening.{opening, object_for, open_session-accepted}
use shine.Transport.Address.{to_binary}
use shine.Transport.Address.Binary.{HasForm, v4}
use shine.Proto.Frame.RoundTrip.{IsEncodable}
use shine.Transport.Link.Reader.{reader_loop, out_of_fuel}
use shine.Transport.Link.Reader.Chunks.{arrived, all_done}
use shine.Transport.Link.Reader.Fuel.{reader_loop-Ends}
use shine.Proto.Frame.Encode.{encode, encode_ok, encode_new}
use shine.Proto.Resp2.Writer.{write_array, write_bulks, write_bulk, write_bulk_header}
use shine.Examples.Numbers.{decimal, decimal-IsLawful, emit}
use shine.Transport.Address.{Address}
use shine.Transport.Link.Closing.{IsClosedAt, fail_link-resets}
use shine.Transport.Link.Handshake.{
  our_hello, start, received, IsAuthenticated, start-IsAuthenticated,
}
use shine.Transport.Link.Handshake.Agreement.{side, client_writes, server_writes, says, exchange}
use shine.Rounds.{talk}
use shine.Transport.Link.Heartbeat.{IsIdle, nonce_of, tick, tick-answered}
use shine.Transport.Link.Heartbeat.Unanswered.{ticks, ticks_unanswered}
use shine.Transport.Link.Dispatch.{dispatch_frame}
use shine.Transport.Link.Dispatch.Table.{IsAt, IsTable, dispatch_frame-IsTable}
use shine.Transport.Link.Dispatch.Duplicates.{dispatch_each, dispatch_frame_duplicate}
use shine.Transport.Link.Dispatch.Orphans.{NotFrom}

abbrev options : Options
options = record {
  password = codes "secret";
  init_window = 64;
  is_server = true;
  ping_interval = 15;
  pong_timeout = 10;
}

abbrev talking : Session
talking = record {
  sid = 9;
  target = default_address;
  protocol = tcp;
  our_initial_window = 64;
  send_credit = 64;
  recv_unacked = 0;
  state = opened;
  leftover = none;
  leftover_off = 0;
  bytes_in = 0;
  bytes_out = 0;
}

-- A new link, and one after the handshake with a session.
abbrev fresh_link : Link
fresh_link = record {
  opts = options;
  closed = false;
  handshake_done = false;
  has_handler = true;
  objects = [];
  sessions = [];
  last_pong_ns = 0;
  pending_ping_nonce = 0;
  last_ping_sent_ns = 0;
}

abbrev busy : Link
busy = record fresh_link { handshake_done = true; objects = talking ∷ []; sessions = (9, 0) ∷ [] }

busy_found : lookup 9 busy.sessions ≡ some 0
unfolding lookup
busy_found = refl

busy_finds : find_session busy 9 ≡ some 0
unfolding find_session lookup
busy_finds = refl

fail_link-resets_example :
    ((fail_link busy).0.sessions ≡ [])
    × IsClosedAt 0 (fail_link busy).0
    × (enqueue_frame (fail_link busy).0 (ping 1) ≡ [])
fail_link-resets_example = fail_link-resets busy 9 0 talking (ping 1) refl busy_found refl

start-IsAuthenticated_example :
    ((start 1 fresh_link (ok our_hello) (ok (auth (codes "secret")))).0.closed ≡ true)
    ⊎ (((start 1 fresh_link (ok our_hello) (ok (auth (codes "secret")))).0.handshake_done ≡ true)
        × IsAuthenticated (codes "secret") (ok our_hello) (ok (auth (codes "secret"))))
start-IsAuthenticated_example =
    start-IsAuthenticated 1 fresh_link (ok our_hello) (ok (auth (codes "secret"))) refl refl refl

exchange_example :
    let accepted = bytes_eq (1 ∷ 2 ∷ []) (1 ∷ 2 ∷ []) in
    let client = side false (1 ∷ 2 ∷ []) 64 in
    let server = side true (1 ∷ 2 ∷ []) 32 in
    let sent = client_writes (1 ∷ 2 ∷ []) in
    let answered = server_writes accepted in
    let c = start 5 client (received answered 0) (received answered 1) in
    let s = start 5 server (received sent 0) (received sent 1) in
    (talk (says 5 client) (says 5 server) 3 ([], []) ≡ (sent, answered))
    × (c.0.handshake_done ≡ accepted)
    × (s.0.handshake_done ≡ accepted)
    × (c.0.closed ≡ not accepted)
    × (s.0.closed ≡ not accepted)
exchange_example = exchange 5 1 1 (2 ∷ []) (2 ∷ []) 64 32 1

busy-IsIdle : IsIdle 20000000000 busy
busy-IsIdle = (refl, refl, refl, refl)

abbrev tick_times : List (ℕ × ℕ)
tick_times = (21000000000, 4) ∷ (30000000000, 5) ∷ []

-- A PING at 20 s with a time of 10 s for its answer, and ticks at 21, 30 and 31 s.
ticks_unanswered_example :
    let r = ticks tick_times (tick 20000000000 3 busy).0 in
    ((tick 20000000000 3 busy).1 ≡ writes (ping (nonce_of 3)) ∷ [])
    × (0 < nonce_of 3)
    × (r.1 ≡ [])
    × (r.0.closed ≡ false)
    × ((tick 31000000000 6 r.0).0.closed ≡ true)
ticks_unanswered_example =
    ticks_unanswered 20000000000 3 31000000000 6 tick_times busy busy-IsIdle (omega arith)
      (omega arith) ((omega arith, omega arith), ((omega arith, omega arith), tt))

tick-answered_example :
    (n : ℕ) × (0 < n)
    × ((tick 20000000000 3 busy).1 ≡ writes (ping n) ∷ [])
    × ((dispatch_frame 6 busy (ping n)).1 ≡ writes (pong n) ∷ [])
    × ((tick 40000000000 4 (dispatch_frame 6 (tick 20000000000 3 busy).0 (pong n)).0).0.closed
        ≡ false)
tick-answered_example = tick-answered 20000000000 3 6 40000000000 4 busy busy busy-IsIdle refl

busy_entry : (sid i : ℕ) → lookup sid busy.sessions ≡ some i → (0 ≡ i) × (9 ≡ sid)
unfolding lookup
busy_entry sid i h = ground arith

busy-IsTable : IsTable busy.sessions busy.objects
unfolding IsTable
busy-IsTable sid i h =
    let (at, same) = busy_entry sid i h in
    subst (λ k. IsAt sid k busy.objects) at (talking, refl, same)

abbrev blob : Bytes
blob = 1 ∷ 4 ∷ 127 ∷ 0 ∷ 0 ∷ 1 ∷ 31 ∷ 144 ∷ []

blob_parsed : parse_binary blob ≡ ok (from_ipv4 (127 ∷ 0 ∷ 0 ∷ 1 ∷ []) 8080)
unfolding parse_binary parse_typed
blob_parsed = refl

dispatch_frame-IsTable_example :
    IsTable
      (dispatch_frame 6 busy (new 3 blob 16)).0.sessions
      (dispatch_frame 6 busy (new 3 blob 16)).0.objects
dispatch_frame-IsTable_example = dispatch_frame-IsTable 6 busy (new 3 blob 16) busy-IsTable

-- Two frames for the sid after the second NEW frame.
abbrev afterwards : List (ℕ × ShineFrame)
afterwards = (7, data_frame 9 (codes "hi")) ∷ (8, close 9 (codes "bye")) ∷ []

dispatch_frame_duplicate_example :
    let r = dispatch_frame 6 busy (new 9 blob 16) in
    let s = Session.create 9 (from_ipv4 (127 ∷ 0 ∷ 0 ∷ 1 ∷ []) 8080) 16 64 tcp in
    (r.1 ≡ writes (ack 9) ∷ starts_handler 1 ∷ [])
    × (get_elem? (dispatch_each afterwards r.0).0.objects 1 ≡ some s)
    × All (NotFrom 1) (dispatch_each afterwards r.0).1
dispatch_frame_duplicate_example =
    dispatch_frame_duplicate 6 busy 9 0 16 blob (from_ipv4 (127 ∷ 0 ∷ 0 ∷ 1 ∷ []) 8080) afterwards
      refl refl busy-IsTable blob_parsed busy_finds

reader_loop-Ends_example :
    (reader_loop decimal 1024 (λ i. i) 10 0 busy (codes "*1\r") (arrived (codes "\n$2" ∷ []))).1.1
    ≢ out_of_fuel
reader_loop-Ends_example =
    reader_loop-Ends decimal 1024 (λ i. i) 10 0 busy (codes "*1\r") (arrived (codes "\n$2" ∷ []))
      (omega arith)

abbrev target : Address
target = from_ipv4 (127 ∷ 0 ∷ 0 ∷ 1 ∷ []) 8080

target-HasForm : HasForm target
target-HasForm = v4 (127 ∷ 0 ∷ 0 ∷ 1 ∷ []) 8080 refl (omega arith)

opening-IsEncodable : IsEncodable 1024 (opening fresh_link 3 target)
unfolding to_binary from_ipv4
opening-IsEncodable = (omega arith, (omega arith, omega arith), omega arith)

not_in_table : find_session busy 3 ≡ none
unfolding find_session lookup
not_in_table = refl

opening_starts : encode decimal (opening fresh_link 3 target) ≢ []
unfolding encode encode_new write_array write_bulks write_bulk write_bulk_header emit
opening_starts e = cc

open_session-accepted_example :
    let r =
      reader_loop decimal 1024
        (λ i. i)
        3
        0
        busy
        []
        (arrived (encode decimal (opening fresh_link 3 target) ∷ [])) in
    (open_session fresh_link 3 target false
      ≡ ok (
        add_session 3 (object_for 3 target 64 fresh_link) fresh_link,
        (0, writes (opening fresh_link 3 target) ∷ []),
      ))
    × (r.0 ≡ add_session 3 (object_for 3 target 64 busy) busy)
    × (r.1.0 ≡ writes (ack 3) ∷ starts_handler 1 ∷ [])
    × (find_session r.0 3 ≡ some 1)
open_session-accepted_example =
    open_session-accepted decimal decimal-IsLawful 1024 (omega arith) (λ i. i) fresh_link busy 3 3
      target (encode decimal (opening fresh_link 3 target) ∷ []) refl refl refl not_in_table
      target-HasForm opening-IsEncodable (opening_starts, tt)
      (append-nil (encode decimal (opening fresh_link 3 target))) (omega arith)

ok_written :
    codes "*1\r\n$2" ++ (codes "\r\nOK\r\n" ++ [])
    ≡ (writer_loop fresh_link (enqueued decimal (ok_frame ∷ []))).0
unfolding writer_loop while_open on_message encode encode_ok write_array write_bulks write_bulk
    write_bulk_header emit
ok_written = refl

frames_cross_example :
    reader_loop decimal 1024
      (λ i. i)
      4
      0
      busy
      []
      (arrived (codes "*1\r\n$2" ∷ codes "\r\nOK\r\n" ∷ []))
    ≡ all_done decimal decimal-IsLawful 1024 (omega arith) (λ i. i) 0 busy (ok_frame ∷ [])
frames_cross_example =
    frames_cross decimal decimal-IsLawful 1024 (omega arith) (λ i. i) fresh_link busy
      (ok_frame ∷ []) (codes "*1\r\n$2" ∷ codes "\r\nOK\r\n" ∷ []) 4 refl refl (tt, tt)
      ((λ e. cc), ((λ e. cc), tt)) ok_written (omega arith)
