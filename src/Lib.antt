-- ===== src/Lib.antt =====
-- Shine: a proxy that multiplexes logical sessions over TCP links, speaking a RESP2 dialect.
--
-- Parts of the program and the modules that model them:
--
--   Core.ReadBuffer: `ReadBuffer` of src/core/buffer.hpp, from which a link parses its input. The
--     vector is a list of bytes; `contents` is the readable view.
--   Proto.Resp2: src/proto/resp2_parser.cpp and resp2_writer.cpp. The parser works on positions in
--     a list of bytes as the code does on positions in the buffer; the branches of a function of the
--     code are functions of their own (`bulk_of_length`, `array_of_header`).
--   Proto.Words and Proto.Frame: src/proto/shine_frame.cpp, the big-endian words, the frames and
--     their codec.
--   Transport.Address: src/transport/address.cpp, the address, its binary form (Binary, Parse) and
--     its text form (Text).
--   Transport.Session: src/transport/session.cpp, a logical stream over a link. A method returns the
--     new session and the calls that it makes on its link and its channels; a method that waits is
--     cut there (`read_begin` and `read_resume`; `write_round` is one round of the loop of `write`).
--   Transport.Flow: the two ends of a session with what is on the way between them, as a step
--     relation whose steps are the methods of Transport.Session. Credit follows the credit,
--     Delivery the bytes.
--   Transport.Link: src/transport/link.cpp. State is the table of sessions and what changes it,
--     Dispatch `dispatchFrame`, Receive takes frames off bytes that are there, Reader is
--     `readerLoop` on what the socket gives and Writer `writerLoop` on what the channel gives;
--     Handshake is `start` and the handshakes, Heartbeat one tick of `heartbeatLoop`, Closing
--     what `failLink` and `closeNow` do, and Opening a session that is opened on one link and
--     accepted at the other. Sessions are shared objects: the link holds every object that was
--     made, and the table maps a sid to the position of one.
--   Transport.Pipe: src/transport/pipe.cpp, `halfCopy` and `bidiCopy`, as steps in which every call
--     on a stream may answer anything.
--   Route: src/route/router.cpp and src/route/geo_matcher.cpp. Cidr, Suffix and Router are the
--     router, Parents, Geo and Category the matchers of sites and countries.
--   Config: src/config/schema.hpp and yaml_loader.cpp. Values reads durations and sizes, Yaml and
--     Load the sections of a file, Validate is `Config::validate`.
--   Rounds: two sides that are each run on what the other has written so far, from nothing, for the
--     dialogues of the handshakes and of SOCKS5.
--   Socket: a connection as the SOCKS5 handlers use it, exact reads and whole writes, as a monad over
--     what the peer has sent and was sent.
--   Inbound: src/inbound. Socks5 is the dialogue with a client and, in Udp, the datagrams of an
--     association; Http is the CONNECT server; Shine the links that are accepted and the request
--     made of a session; Listen is `start`.
--   Outbound: src/outbound. Socks5 and Http are the dialogues with a server, from the connection on;
--     Shine is the pool of links; Direct is the way of UDP datagrams and the cache of domains.
--   Server: src/main.cpp and the two factories, from a configuration to a running server and from a
--     request to its outbound.
--
-- An inbound makes a request, `dispatch` of src/main.cpp asks the router for the tag of an outbound
-- and hands the request over, and the outbound connects the two streams by src/transport/pipe.cpp.
-- Between two instances the stream of a request is a session, and the sessions share a link.
--
-- Absl holds what the program takes from Abseil (printing and reading of numbers), as a parameter
-- with the documented behaviour as hypotheses; Examples.Numbers gives functions that meet them.
-- The readers of addresses and numbers in Route.Cidr, the regular expressions in Route.Category,
-- the texts of addresses in Transport.Address.Text (Examples.Texts meets what is asked of them),
-- the nodes of yaml-cpp in Config.Yaml and the floating-point numbers in Config.Values are
-- parameters as well. Bytes are numbers below 256 where a statement needs it. Machine integers
-- are natural numbers with the wrap-around written out where it can occur.
--
-- `Transport.Link.Reader.reader_loop` takes fuel, one unit for a round; one for each byte in the
-- buffer, each piece that arrives and each byte of it, and one more, is enough, as
-- Transport.Link.Reader.Fuel shows. `Transport.Link.Receive.read_frames` takes fuel, one unit for
-- a frame; more fuel than there are frames is enough. `Transport.Session.Writing.write_run` takes
-- one unit for a round; one for each byte of the data, and one more, is enough.
--
-- Not modelled: sockets, timers, name resolution and threads of Boost.Asio, so that listening,
-- accepting and connecting stand for their answers, and how the coroutines of one link interleave;
-- protobuf files; metrics, signals and logging; the arguments and the shutdown of `main`; the relay
-- loops for datagrams in src/outbound, and the block outbound, which drops its stream.
mod Prelude
pub mod Absl
pub mod Core
pub mod Proto
pub mod Transport
pub mod Rounds
pub mod Route
pub mod Socket
pub mod Inbound
pub mod Outbound
pub mod Config
pub mod Server
mod Examples
