-- ===== src/Server/Accounts/Dispatch.antt =====
-- SignalServer::processMessage (server/src/signal_server.cpp) keeps the account of the queued bytes.
use vlan_connect.Prelude.{
  ◌==◌, if◌then◌else◌, ℕ, ◌≡◌, refl, sym, subst, Bool, true, false, not, ◌||◌, Option, none, some,
  List, [],
}
use vlan_connect.Prelude.Map.{find}
use vlan_connect.Session.{
  SessionState, await_hello, await_server_auth, await_login, logged_in, await_room_password,
  resume_pending, in_room, closing, SessionMessageAction, dispatch, send_state_error, close,
  ignore_unknown, classify_client_signal_message,
}
use vlan_connect.Protocol.Constants.{
  msg_login, msg_create_room, msg_join_room, msg_leave_room, msg_request_relay, msg_list_rooms,
  msg_resume_room, msg_logout, msg_tcp_relay_data, msg_encrypted, msg_auth_response, msg_ping,
}
use vlan_connect.SecureFrame.Cipher.{Crypto, decrypt}
use vlan_connect.Server.State.{ClientSession, SignalServer, update_client}
use vlan_connect.Server.Deliver.{error_general, send_error}
use vlan_connect.Server.Handlers.{kill_client}
use vlan_connect.ClientMessage.{validate_client_signal_payload}
use vlan_connect.SecureFrame.Cipher as Cipher
use vlan_connect.Server.Dispatch.{
  Outside, inner_frame, Outcome, done, client_hello, server_auth, dispatch_message, process_action,
  process_frame, process_handshake, process_by_state, process_message,
}
use vlan_connect.Server.Accounts.{IsCounted, update_client-IsCounted}
use vlan_connect.Server.Accounts.Deliver.{if-IsCounted}
use vlan_connect.Server.Accounts.Rooms.{on_leave_room-IsCounted}
use vlan_connect.Server.Accounts.Handlers.{kill_client-IsCounted, on_login-IsCounted}
use vlan_connect.Server.Accounts.Handlers.Rooms.{error-IsCounted, on_create_room-IsCounted}
use vlan_connect.Server.Accounts.Handlers.Joins.{on_join_room-IsCounted, on_auth_response-IsCounted}
use vlan_connect.Server.Accounts.Handlers.Leases.{on_resume_room-IsCounted, on_logout-IsCounted}
use vlan_connect.Server.Accounts.Handlers.Messages.{
  on_list_rooms-IsCounted, on_ping-IsCounted, on_request_relay-IsCounted,
  on_tcp_relay_data-IsCounted,
}

-- The state that a message leaves, or that the handshake's handler starts in.
abbrev pub state_of : Outcome → SignalServer
state_of (done s) = s
state_of (client_hello s) = s
state_of (server_auth s) = s

module _ (crypto : Crypto) (outside : Outside) where
  open outside use {now, random, allowed}

  dispatch_message-IsCounted :
      (fd t : ℕ) (body : List ℕ) (s : SignalServer)
      → IsCounted s
      → IsCounted (dispatch_message crypto outside fd t body s)
  unfolding dispatch_message
  dispatch_message-IsCounted fd t body s v =
      if-IsCounted (t == msg_login) (on_login-IsCounted crypto now fd body s v) (
        if-IsCounted (t == msg_create_room)
          (on_create_room-IsCounted crypto now random allowed fd body s v)
          (if-IsCounted (t == msg_join_room)
            (on_join_room-IsCounted crypto now random allowed fd body s v)
            (if-IsCounted (t == msg_resume_room) (on_resume_room-IsCounted crypto now fd body s v) (
              if-IsCounted (t == msg_leave_room) (on_leave_room-IsCounted crypto now fd s v) (
                if-IsCounted (t == msg_logout) (on_logout-IsCounted crypto now fd s v) (
                  if-IsCounted (t == msg_list_rooms) (on_list_rooms-IsCounted crypto now fd s v) (
                    if-IsCounted (t == msg_request_relay)
                      (on_request_relay-IsCounted crypto fd body s v)
                      (if-IsCounted (t == msg_auth_response)
                        (on_auth_response-IsCounted crypto now random fd body s v)
                        (if-IsCounted (t == msg_ping) (on_ping-IsCounted crypto fd s v) (
                          if-IsCounted (t == msg_tcp_relay_data)
                            (on_tcp_relay_data-IsCounted crypto fd body s v) v))))))))))

  state_error-IsCounted :
      (fd : ℕ) (s : SignalServer)
      → IsCounted s
      → IsCounted
          (send_error crypto fd "Message not allowed in current session state" error_general s)
  state_error-IsCounted fd s v =
      error-IsCounted crypto fd "Message not allowed in current session state" s v

  process_action-IsCounted :
      (action : SessionMessageAction) (fd t : ℕ) (body : List ℕ) (s : SignalServer)
      → IsCounted s
      → IsCounted (process_action crypto outside action fd t body s)
  unfolding process_action
  process_action-IsCounted ignore_unknown fd t body s v = v
  process_action-IsCounted close fd t body s v = kill_client-IsCounted fd s v
  process_action-IsCounted send_state_error fd t body s v =
      if-IsCounted (not (validate_client_signal_payload t body)) (kill_client-IsCounted fd s v)
        (state_error-IsCounted fd s v)
  process_action-IsCounted dispatch fd t body s v =
      if-IsCounted (not (validate_client_signal_payload t body)) (kill_client-IsCounted fd s v)
        (dispatch_message-IsCounted fd t body s v)

  process_frame-IsCounted :
      (fd : ℕ) (c : ClientSession) (t : ℕ) (payload : List ℕ) (s : SignalServer)
      → IsCounted s
      → IsCounted (process_frame crypto outside fd c t payload s)
  unfolding process_frame
  process_frame-IsCounted fd c t payload s v =
      let (plain, cipher) = Cipher.decrypt crypto payload [] c.secure_cipher in
      let g : ClientSession → ClientSession = λ d. record d { secure_cipher = cipher } in
      let s1 = update_client fd g s in
      let v1 = update_client-IsCounted fd g s (λ d. refl) (λ d. refl) (λ d. refl) v in
      if-IsCounted (not c.server_auth_ok || not c.secure_enabled) (kill_client-IsCounted fd s v) (
        if-IsCounted (not (t == msg_encrypted)) (kill_client-IsCounted fd s v)
          (read (inner_frame plain) s1 v1))
    where
      read :
          (o : Option (ℕ × List ℕ)) (s1 : SignalServer)
          → IsCounted s1
          → IsCounted (elim o as (λ o'. SignalServer) [
            | none ↦ kill_client fd s1
            | some (inner, body) ↦
                process_action crypto outside
                  (classify_client_signal_message c.state inner)
                  fd
                  inner
                  body
                  s1
          ])
      read none s1 v1 = kill_client-IsCounted fd s1 v1
      read (some (inner, body)) s1 v1 =
          process_action-IsCounted (classify_client_signal_message c.state inner) fd inner body s1
            v1

  process_handshake-IsCounted :
      (next : SignalServer → Outcome)
      → ((s : SignalServer) → state_of (next s) ≡ s)
      → (fd : ℕ) (state : SessionState) (t : ℕ) (payload : List ℕ) (s : SignalServer) → IsCounted s
      → IsCounted (state_of (process_handshake crypto outside next fd state t payload s))
  unfolding process_handshake
  process_handshake-IsCounted next same fd state t payload s v =
      by_action (classify_client_signal_message state t)
    where
      if_done :
          (b : Bool) (x y : Outcome)
          → IsCounted (state_of x)
          → IsCounted (state_of y)
          → IsCounted (state_of (if b then x else y))
      if_done true x y p q = p
      if_done false x y p q = q

      by_action :
          (action : SessionMessageAction)
          → IsCounted (
              state_of (elim action as (λ a. Outcome) [
                | ignore_unknown ↦ done s
                | close ↦ done (kill_client fd s)
                | send_state_error ↦
                    if not (validate_client_signal_payload t payload)
                    then done (kill_client fd s)
                    else done (
                        send_error crypto fd "Message not allowed in current session state"
                          error_general s)
                | dispatch ↦
                    if not (validate_client_signal_payload t payload)
                    then done (kill_client fd s)
                    else next s
              ]))
      by_action ignore_unknown = v
      by_action close = kill_client-IsCounted fd s v
      by_action send_state_error =
          if_done (not (validate_client_signal_payload t payload)) _ _
            (kill_client-IsCounted fd s v) (state_error-IsCounted fd s v)
      by_action dispatch =
          if_done (not (validate_client_signal_payload t payload)) _ _
            (kill_client-IsCounted fd s v) (subst IsCounted (sym (same s)) v)

  process_by_state-IsCounted :
      (state : SessionState) (fd : ℕ) (c : ClientSession) (t : ℕ) (payload : List ℕ)
      (s : SignalServer)
      → IsCounted s
      → IsCounted (state_of (process_by_state crypto outside state fd c t payload s))
  unfolding process_by_state
  process_by_state-IsCounted closing fd c t payload s v = v
  process_by_state-IsCounted await_hello fd c t payload s v =
      process_handshake-IsCounted client_hello (λ s'. refl) fd await_hello t payload s v
  process_by_state-IsCounted await_server_auth fd c t payload s v =
      process_handshake-IsCounted server_auth (λ s'. refl) fd await_server_auth t payload s v
  process_by_state-IsCounted await_login fd c t payload s v =
      process_frame-IsCounted fd c t payload s v
  process_by_state-IsCounted logged_in fd c t payload s v =
      process_frame-IsCounted fd c t payload s v
  process_by_state-IsCounted await_room_password fd c t payload s v =
      process_frame-IsCounted fd c t payload s v
  process_by_state-IsCounted resume_pending fd c t payload s v =
      process_frame-IsCounted fd c t payload s v
  process_by_state-IsCounted in_room fd c t payload s v = process_frame-IsCounted fd c t payload s v

  -- Whatever message comes in on whatever session in whatever state, and whatever the system answers
  -- to the sends: where the total of the queued bytes was exact, every queue and the total within
  -- their limits and every session under its own socket, they stay so. A message for one of the two
  -- handlers of the handshake is followed up to the call of that handler.
  pub process_message-IsCounted :
      (fd t : ℕ) (payload : List ℕ) (s : SignalServer)
      → IsCounted s
      → IsCounted (state_of (process_message crypto outside fd t payload s))
  unfolding process_message
  process_message-IsCounted fd t payload s v = by_client (find fd s.clients)
    where
      by_client :
          (o : Option ClientSession)
          → IsCounted (
              state_of (elim o as (λ o'. Outcome) [
                | none ↦ done s
                | some c ↦
                    process_by_state crypto outside c.state fd c t payload
                      (update_client fd (λ d. record d { last_ping = now }) s)
              ]))
      by_client none = v
      by_client (some c) = process_by_state-IsCounted c.state fd c t payload _ (
          update_client-IsCounted fd (λ d. record d { last_ping = now }) s (λ d. refl) (λ d. refl)
            (λ d. refl) v)
