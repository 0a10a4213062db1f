-- ===== src/Server/Dispatch.antt =====
-- SignalServer::processMessage (server/src/signal_server.cpp), up to the calls of the two handlers
-- of the handshake.
use vlan_connect.Prelude.{
  ◌==◌, if◌then◌else◌, ℕ, Bool, not, ◌||◌, Option, none, some, List, [], ◌∷◌,
}
use vlan_connect.Session.{
  SessionState, await_hello, await_server_auth, closing, SessionMessageAction, dispatch,
  send_state_error, close, ignore_unknown, classify_client_signal_message,
}
use vlan_connect.ClientMessage.{validate_client_signal_payload}
use vlan_connect.Protocol.Constants.{
  msg_login, msg_create_room, msg_join_room, msg_leave_room, msg_request_relay, msg_list_rooms,
  msg_resume_room, msg_logout, msg_tcp_relay_data, msg_encrypted, msg_auth_response, msg_ping,
}
use vlan_connect.SecureFrame.Cipher as Cipher
use vlan_connect.SecureFrame.Cipher.{Crypto, decrypt}
use vlan_connect.Server.State.{ClientSession, SignalServer, update_client}
use vlan_connect.Server.Deliver.{error_general, send_error}
use vlan_connect.Server.Rooms.{on_leave_room}
use vlan_connect.Server.Handlers.{
  kill_client, on_login, on_list_rooms, on_ping, on_request_relay, on_tcp_relay_data,
}
use vlan_connect.Server.RoomHandlers.{on_create_room, on_join_room, on_auth_response}
use vlan_connect.Server.LeaseHandlers.{on_resume_room, on_logout}
use vlan_connect.Prelude.Map.{find}

-- What a handler takes from outside: the clock, the random bytes and the limits by address.
pub record Outside : Type 0 where
  pub now : ℕ
  pub random : Option (List ℕ)
  pub allowed : Bool

abbrev pub inner_frame : Option (List ℕ) → Option (ℕ × List ℕ)
inner_frame none = none
inner_frame (some []) = none
inner_frame (some (t ∷ body)) = some (t, body)

-- Where a message leads: to a new state, or from a state into a handler of the handshake.
pub data Outcome : Type 0 where
  done : SignalServer → Outcome
  client_hello : SignalServer → Outcome
  server_auth : SignalServer → Outcome

module _ (crypto : Crypto) (outside : Outside) where
  open outside use {now, random, allowed}

  -- The switch over the message's type.
  unfoldable pub dispatch_message : ℕ → ℕ → List ℕ → SignalServer → SignalServer
  unfolding on_login on_create_room on_join_room on_resume_room on_leave_room on_logout
      on_list_rooms on_request_relay on_auth_response on_ping on_tcp_relay_data
  dispatch_message fd t body s =
      if t == msg_login
      then on_login crypto now fd body s
      else if t == msg_create_room
      then on_create_room crypto now random allowed fd body s
      else if t == msg_join_room
      then on_join_room crypto now random allowed fd body s
      else if t == msg_resume_room
      then on_resume_room crypto now fd body s
      else if t == msg_leave_room
      then on_leave_room crypto now fd s
      else if t == msg_logout
      then on_logout crypto now fd s
      else if t == msg_list_rooms
      then on_list_rooms crypto now fd s
      else if t == msg_request_relay
      then on_request_relay crypto fd body s
      else if t == msg_auth_response
      then on_auth_response crypto now random fd body s
      else if t == msg_ping
      then on_ping crypto fd s
      else if t == msg_tcp_relay_data
      then on_tcp_relay_data crypto fd body s
      else s

  -- A message that was decrypted, by what the session's state says of it.
  unfoldable pub process_action :
      SessionMessageAction → ℕ → ℕ → List ℕ → SignalServer → SignalServer
  unfolding dispatch_message send_error validate_client_signal_payload
  process_action ignore_unknown fd t body s = s
  process_action close fd t body s = kill_client fd s
  process_action send_state_error fd t body s =
      if not (validate_client_signal_payload t body)
      then kill_client fd s
      else send_error crypto fd "Message not allowed in current session state" error_general s
  process_action dispatch fd t body s =
      if not (validate_client_signal_payload t body)
      then kill_client fd s
      else dispatch_message fd t body s

  -- The frame of a session with keys.
  unfoldable pub process_frame : ℕ → ClientSession → ℕ → List ℕ → SignalServer → SignalServer
  unfolding Cipher.decrypt process_action update_client
  process_frame fd c t payload s =
      let (plain, cipher) = Cipher.decrypt crypto payload [] c.secure_cipher in
      let s1 = update_client fd (λ d. record d { secure_cipher = cipher }) s in
      if not c.server_auth_ok || not c.secure_enabled
      then kill_client fd s
      else if not (t == msg_encrypted)
      then kill_client fd s
      else elim (inner_frame plain) [
        | none ↦ kill_client fd s1
        | some (inner, body) ↦
            process_action (classify_client_signal_message c.state inner) fd inner body s1
      ]

  -- A message before the session has its keys; `next` is the state's handler.
  unfoldable pub process_handshake :
      (SignalServer → Outcome) → ℕ → SessionState → ℕ → List ℕ → SignalServer → Outcome
  unfolding send_error validate_client_signal_payload classify_client_signal_message
  process_handshake next fd state t payload s = elim (classify_client_signal_message state t) [
    | ignore_unknown ↦ done s
    | close ↦ done (kill_client fd s)
    | send_state_error ↦
        if not (validate_client_signal_payload t payload)
        then done (kill_client fd s)
        else done
            (send_error crypto fd "Message not allowed in current session state" error_general s)
    | dispatch ↦
        if not (validate_client_signal_payload t payload) then done (kill_client fd s) else next s
  ]

  unfoldable pub process_by_state :
      SessionState → ℕ → ClientSession → ℕ → List ℕ → SignalServer → Outcome
  unfolding process_handshake process_frame
  process_by_state closing fd c t payload s = done s
  process_by_state await_hello fd c t payload s =
      process_handshake client_hello fd await_hello t payload s
  process_by_state await_server_auth fd c t payload s =
      process_handshake server_auth fd await_server_auth t payload s
  process_by_state _ fd c t payload s = done (process_frame fd c t payload s)

  unfoldable pub process_message : ℕ → ℕ → List ℕ → SignalServer → Outcome
  unfolding process_by_state update_client
  process_message fd t payload s = elim (find fd s.clients) [
    | none ↦ done s
    | some c ↦
        process_by_state c.state fd c t payload
          (update_client fd (λ d. record d { last_ping = now }) s)
  ]
