-- ===== src/Server/Deliver.antt =====
-- The messages from the server to its sessions (server/src/signal_server.cpp).
use Prim.Native.String.{String}
use vlan_connect.Prelude.{
  ◌==◌, if◌then◌else◌, codes, ℕ, Bool, false, none, some, List, [], ◌∷◌, ◌++◌,
}
use vlan_connect.Prelude.Map.{find, insert}
use vlan_connect.Room.Leases.{peer_ids}
use vlan_connect.Room.Manager.{get_room}
use vlan_connect.ByteBuffer.{u16_bytes, u32_bytes, string_bytes}
use vlan_connect.Protocol.Constants.{msg_relay_ready, msg_error}
use vlan_connect.SecureFrame.Cipher.{Crypto}
use vlan_connect.Server.State.{ClientSession, SignalServer}
use vlan_connect.Server.Index.{find_client_by_peer_id}
use vlan_connect.Server.Send.{Wire, send_client_msg, send_data_msg}

abbrev pub wire : ClientSession → SignalServer → Wire
wire c s = record {
  client = c;
  global = s.global_send_bytes;
  limit = s.max_send_buffer_bytes;
  answers = s.answers;
  data_index = s.data_fd_map;
}

abbrev pub unwire : ℕ → Wire → SignalServer → SignalServer
unwire fd w s = record s {
  clients = insert fd w.client s.clients;
  global_send_bytes = w.global;
  answers = w.answers;
  data_fd_map = w.data_index;
}

-- An operation on the session of a socket. A socket without one sends nothing.
unfoldable pub on_wire : ℕ → (Wire → Bool × Wire) → SignalServer → Bool × SignalServer
on_wire fd f s = elim (find fd s.clients) [
  | none ↦ (false, s)
  | some c ↦ let (ok, w) = f (wire c s) in (ok, unwire fd w s)
]

-- The codes of AuthErrorCode.
abbrev pub error_general : ℕ
error_general = 0

abbrev pub error_version_mismatch : ℕ
error_version_mismatch = 1

abbrev pub error_rate_limited : ℕ
error_rate_limited = 6

abbrev pub error_room_password : ℕ
error_room_password = 9

module _ (crypto : Crypto) where
  unfoldable pub send_client : ℕ → ℕ → List ℕ → SignalServer → Bool × SignalServer
  unfolding on_wire
  send_client fd msg_type body s = on_wire fd (send_client_msg crypto msg_type body) s

  unfoldable pub send_data : ℕ → ℕ → List ℕ → SignalServer → Bool × SignalServer
  unfolding on_wire
  send_data fd msg_type body s = on_wire fd (send_data_msg crypto msg_type body) s

  unfoldable pub send_error : ℕ → String → ℕ → SignalServer → SignalServer
  unfolding send_client
  send_error fd text code s =
      (send_client fd msg_error (u16_bytes code ++ string_bytes (codes text)) s).1

  -- A message to the session of a peer, if it has one.
  unfoldable pub send_to_peer : ℕ → ℕ → List ℕ → SignalServer → SignalServer
  unfolding send_client find_client_by_peer_id
  send_to_peer peer msg_type body s = elim (find_client_by_peer_id peer s).0 [
    | none ↦ (find_client_by_peer_id peer s).1
    | some c ↦ (send_client c.tcp_fd msg_type body (find_client_by_peer_id peer s).1).1
  ]

  unfoldable pub send_to_peers : List ℕ → ℕ → ℕ → List ℕ → SignalServer → SignalServer
  unfolding send_to_peer
  send_to_peers [] exclude msg_type body s = s
  send_to_peers (peer ∷ peers) exclude msg_type body s =
      send_to_peers peers exclude msg_type body
        (if peer == exclude then s else send_to_peer peer msg_type body s)

  unfoldable pub broadcast_to_room : ℕ → ℕ → List ℕ → ℕ → SignalServer → SignalServer
  unfolding send_to_peers
  broadcast_to_room room_id msg_type body exclude s = elim (get_room room_id s.rooms) [
    | none ↦ s
    | some room ↦ send_to_peers (peer_ids room) exclude msg_type body s
  ]

  unfoldable pub send_relay_ready : ℕ → ℕ → SignalServer → SignalServer
  unfolding send_client
  send_relay_ready fd peer s = (send_client fd msg_relay_ready (u32_bytes peer) s).1

  unfoldable pub relay_pair : ClientSession → ℕ → SignalServer → SignalServer
  unfolding send_relay_ready find_client_by_peer_id
  relay_pair c peer s = elim (find_client_by_peer_id peer s).0 [
    | none ↦ (find_client_by_peer_id peer s).1
    | some other ↦
        send_relay_ready other.tcp_fd c.peer_id
          (send_relay_ready c.tcp_fd other.peer_id (find_client_by_peer_id peer s).1)
  ]

  unfoldable pub relay_pairs : ClientSession → List ℕ → SignalServer → SignalServer
  unfolding relay_pair
  relay_pairs c [] s = s
  relay_pairs c (peer ∷ peers) s =
      relay_pairs c peers (if peer == c.peer_id then s else relay_pair c peer s)

  unfoldable pub notify_relay_peers : ClientSession → SignalServer → SignalServer
  unfolding relay_pairs
  notify_relay_peers c s = elim (get_room c.room_id s.rooms) [
    | none ↦ s
    | some room ↦ relay_pairs c (peer_ids room) s
  ]
