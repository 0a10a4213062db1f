-- ===== src/Session.antt =====
-- server/src/room.h, the states of a client's connection and the messages each of them accepts.
pub mod Rules
pub mod Index
mod Tests
use vlan_connect.Prelude.{◌==◌, if◌then◌else◌, ℕ, Bool, true, false, not, ◌||◌, List, [], ◌∷◌}
use vlan_connect.Protocol.Constants.{
  msg_login, msg_create_room, msg_join_room, msg_leave_room, msg_request_relay, msg_list_rooms,
  msg_resume_room, msg_logout, msg_tcp_relay_data, msg_client_hello, msg_server_auth, msg_encrypted,
  msg_auth_response, msg_ping,
}

pub data SessionState : Type 0 where
  await_hello : SessionState
  await_server_auth : SessionState
  await_login : SessionState
  logged_in : SessionState
  await_room_password : SessionState
  resume_pending : SessionState
  in_room : SessionState
  closing : SessionState

unfoldable pub session_has_peer_identity : SessionState → Bool
session_has_peer_identity logged_in = true
session_has_peer_identity await_room_password = true
session_has_peer_identity resume_pending = true
session_has_peer_identity in_room = true
session_has_peer_identity _ = false

unfoldable pub session_can_bind_data_channel : SessionState → Bool
unfolding session_has_peer_identity
session_can_bind_data_channel s = session_has_peer_identity s

unfoldable pub is_client_handshake_message : ℕ → Bool
is_client_handshake_message t = t == msg_client_hello || t == msg_server_auth || t == msg_login

abbrev one_of : List ℕ → ℕ → Bool
one_of [] t = false
one_of (m ∷ ms) t = t == m || one_of ms t

unfoldable pub is_known_client_signal_message : ℕ → Bool
is_known_client_signal_message t =
    one_of
      (msg_client_hello ∷ msg_server_auth ∷ msg_login ∷ msg_create_room ∷ msg_join_room
        ∷ msg_resume_room ∷ msg_leave_room ∷ msg_logout ∷ msg_list_rooms ∷ msg_request_relay
        ∷ msg_auth_response ∷ msg_ping ∷ msg_tcp_relay_data ∷ msg_encrypted ∷ [])
      t

pub data SessionMessageAction : Type 0 where
  dispatch : SessionMessageAction
  send_state_error : SessionMessageAction
  close : SessionMessageAction
  ignore_unknown : SessionMessageAction

unfoldable pub is_client_signal_message_allowed : SessionState → ℕ → Bool
is_client_signal_message_allowed await_hello t = t == msg_client_hello
is_client_signal_message_allowed await_server_auth t = t == msg_server_auth
is_client_signal_message_allowed await_login t = t == msg_login || t == msg_ping
is_client_signal_message_allowed logged_in t =
    t == msg_create_room
    || t == msg_join_room
    || t == msg_list_rooms
    || t == msg_logout
    || t == msg_ping
is_client_signal_message_allowed await_room_password t =
    t == msg_auth_response || t == msg_list_rooms || t == msg_logout || t == msg_ping
is_client_signal_message_allowed resume_pending t =
    t == msg_resume_room || t == msg_list_rooms || t == msg_logout || t == msg_ping
is_client_signal_message_allowed in_room t =
    t == msg_leave_room
    || t == msg_logout
    || t == msg_list_rooms
    || t == msg_request_relay
    || t == msg_ping
    || t == msg_tcp_relay_data
is_client_signal_message_allowed closing t = false

unfoldable pub classify_client_signal_message : SessionState → ℕ → SessionMessageAction
classify_client_signal_message s t =
    if not (is_known_client_signal_message t)
    then ignore_unknown
    else if is_client_signal_message_allowed s t
    then dispatch
    else if is_client_handshake_message t
    then close
    else send_state_error
