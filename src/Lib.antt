-- ===== src/Lib.antt =====
-- A LAN over the internet: a server that keeps rooms of players and passes on their packets, and
-- clients that join a room and see one IPv4 subnet. The development models the parts that the
-- server and the clients share (common), the signal server with its rooms, sessions and handlers
-- (server/src), and the client's forward error correction (client-cli/src).
--
-- The parts and their files:
-- - Prelude: shared names; Lists, Map (`std::map` and `std::set` with a number for a key) and Bits
--   (bits of a byte, checked on all values); State is the monad of code that may fail.
-- - Protocol: common/protocol.h, its constants, names, transport policies and packet budgets, and
--   the address helpers of common/net_common.h.
-- - ByteBuffer: common/byte_buffer.h. `Parser` is the contract of the reads, on the list of the
--   bytes that are left; `Refine` shows that the reads meet it, alone and in chains.
-- - TrafficCodec: common/traffic_policy_codec.h.
-- - SecureFrame: SecureFrameCipher of common/secure_frame.h. `Window` is isCounterAllowed and
--   recordCounter on the bitmap, `Spec` the history of accepted counters that the bitmap stands
--   for, `Cipher` init, encrypt and decrypt. Monocypher is the record `Crypto`: its hash, its
--   comparison, lock and unlock, with the laws that its documentation states.
-- - Room: Room and RoomManager of server/src/room.h. A pointer to a lease or a room is its value,
--   or `none`; a write through it is an update of the list or the map.
-- - Session: the session states of server/src/room.h, which messages each accepts, and the indexes
--   from keys to sockets.
-- - ClientMessage: server/src/client_message_validator.h, with the bodies that
--   client-cli/src/cli_net.cpp builds. `Verdict` has what it takes for a chain of reads to accept.
-- - SignalMessage: the cursor of common/signal_message_validator.h and the checks of peer
--   information and relay data that are made with it.
-- - Overlay: common/overlay_packet_validator.h. TcpFrame: common/tcp_frame_probe.h.
--   Watchdog: common/relay_probe_watchdog.h. AuthFile: server/src/auth_file.h.
-- - RoomOperation: common/room_operation.h. Probe: common/probe_quality.h.
-- - Fec: client-cli/src/cli_fec.cpp. `Encoder` groups payloads and makes packets, `Decoder` stores
--   blocks, gives out payloads and recovers lost ones; cm256 is the record `Cm256`. `Bytes` has the
--   invariant of the decoder's memory, `Capacity`, `Receive` and `Transfer` what rests on it.
-- - Server: server/src/signal_server.cpp. `State` is ClientSession and the members of SignalServer,
--   `Index` the indexes, `Send` the buffers of one session and `Deliver` the messages to sessions,
--   `RoomList` the pages and changes of the room list, `Rooms`, `Expiry` and `Teardown` membership,
--   leases and the end of sessions, `Handlers`, `RoomHandlers` and `LeaseHandlers` the handlers,
--   `Dispatch` processMessage over them. A socket is a number, a write through a session's
--   reference an update of the map; the answers of `send` are a list in the state. `Stable` says
--   what a predicate needs to survive every send; `Accounting`, `Accounts`, `Flush`, `Pages`,
--   `Delta`, `Isolation` and `Resume` have the theorems. `Pages.Reader` reads the room list back,
--   each room as readRoomListItem of client-cli/src/cli_net.cpp does.
--
-- The server frames what it receives with TcpFrame, opens it with SecureFrame, classifies it by
-- Session, checks it with ClientMessage and then works on Room; a client checks what comes out of
-- a tunnel with Overlay and judges the path with Probe.
--
-- Numbers are natural numbers, with the wrap-around of the source written out; bytes are numbers
-- below 256, and strings lists of bytes. Loops over a container are recursion on its list; counted
-- loops recurse on the rounds that are left, which the caller fixes as the source does. Two loops
-- take fuel: `flush_loop` one more than the bytes in the queue, since a round that goes on takes a
-- byte at least, and `evict` one more than the groups, since a round takes a group out. Clocks,
-- random values and the answers of the limits by address are arguments.
--
-- Not modelled: sockets, threads, files, the user interfaces, the adapters and the vendored
-- libraries, which are input and output or code of others; of the server the two handlers of the
-- handshake, at which `process_message` stops with its outcome, the data channel, the UDP relay, the
-- limits by address, the pending connections and the sampled logs; the other messages of the
-- server to the clients and the tunnels.
pub mod Prelude
pub mod Protocol
pub mod ByteBuffer
pub mod SecureFrame
pub mod Room
pub mod Session
pub mod ClientMessage
pub mod RoomOperation
pub mod Overlay
pub mod AuthFile
pub mod Probe
pub mod TcpFrame
pub mod Watchdog
pub mod Fec
pub mod Server
pub mod TrafficCodec
pub mod SignalMessage
