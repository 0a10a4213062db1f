-- ===== src/Server/State.antt =====
-- ClientSession (server/src/room.h) and the members of SignalServer (server/src/signal_server.h)
-- that its operations change. A file descriptor is a number, and a `dataFd` below 0 is `none`. The
-- keys of the handshake, the receive buffers, the counters of the log and the limits by address are
-- left out.
use vlan_connect.Prelude.{ℕ, ◌-◌, ◌*◌, ◌^◌, Bool, Option, none, some, List}
use vlan_connect.Prelude.Map.{find, insert}
use vlan_connect.Room.Manager.{RoomManager}
use vlan_connect.Session.{SessionState}
use vlan_connect.Protocol.Policy.{RoomTrafficPolicy}
use vlan_connect.SecureFrame.Window.{SecureFrameCipher}

abbrev pub max_tcp_send_buf : ℕ
max_tcp_send_buf = 2 * 1024 * 1024

abbrev pub size_max : ℕ
size_max = 2 ^ 64 - 1

pub record ClientSession : Type 0 where
  pub tcp_fd : ℕ
  pub data_fd : Option ℕ
  pub peer_id : ℕ
  pub virtual_ip : ℕ
  pub room_id : ℕ
  pub name : List ℕ
  pub send_buf : List ℕ
  pub data_send_buf : List ℕ
  pub last_ping : ℕ
  pub alive : Bool
  pub state : SessionState
  pub server_auth_ok : Bool
  pub secure_enabled : Bool
  pub secure_session_id : ℕ
  pub secure_cipher : SecureFrameCipher
  pub data_cipher : SecureFrameCipher
  pub hello_deadline : ℕ
  pub auth_deadline : ℕ
  pub send_budget_failures : ℕ
  pub pending_join_room_id : ℕ
  pub auth_challenge : List ℕ
  pub resume_room_id : ℕ
  pub resume_peer_id : ℕ
  pub resume_token : List ℕ
  pub udp_addr_known : Bool

-- What the system answers to a call of `send`: a number of bytes, EAGAIN, or another error.
pub data SendResult : Type 0 where
  sent : ℕ → SendResult
  would_block : SendResult
  failed : SendResult

-- RoomListState of server/src/signal_server.h.
pub record RoomListState : Type 0 where
  pub room_id : ℕ
  pub room_name : List ℕ
  pub player_count : ℕ
  pub max_players : ℕ
  pub tcp_policy : RoomTrafficPolicy
  pub udp_policy : RoomTrafficPolicy
  pub password_protected : ℕ
  pub mtu : ℕ

-- `answers` holds what the next calls of `send` will answer, in order; when there is none left, the
-- answer is EAGAIN.
pub record SignalServer : Type 0 where
  pub clients : List (ℕ × ClientSession)
  pub data_fd_map : List (ℕ × ℕ)
  pub peer_map : List (ℕ × ℕ)
  pub secure_session_map : List (ℕ × ℕ)
  pub rooms : RoomManager
  pub next_peer_id : ℕ
  pub free_peer_ids : List ℕ
  pub max_rooms : ℕ
  pub max_send_buffer_bytes : ℕ
  pub global_send_bytes : ℕ
  pub room_list_revision : ℕ
  pub published_rooms : List (ℕ × RoomListState)
  pub answers : List SendResult

unfoldable pub get_client : ℕ → SignalServer → Option ClientSession
get_client fd s = find fd s.clients

-- A write through a reference to a session.
unfoldable pub put_client : ClientSession → SignalServer → SignalServer
put_client c s = record s { clients = insert c.tcp_fd c s.clients }

-- A change of the session of a socket that has one.
unfoldable pub update_client : ℕ → (ClientSession → ClientSession) → SignalServer → SignalServer
update_client fd f s = elim (find fd s.clients) [
  | none ↦ s
  | some c ↦ record s { clients = insert fd (f c) s.clients }
]
