-- ===== src/Session/Rules.antt =====
-- What the classification of the clients' messages guarantees.
use vlan_connect.Prelude.{if◌then◌else◌, ℕ, ◌≡◌, ◌↔◌, ◌⊎◌, false, arith}
use vlan_connect.Protocol.Constants.{msg_login, msg_client_hello, msg_server_auth, msg_ping}
use vlan_connect.Session.{
  SessionState, await_hello, await_server_auth, await_login, logged_in, await_room_password,
  resume_pending, in_room, closing, session_has_peer_identity, is_client_handshake_message,
  is_known_client_signal_message, dispatch, send_state_error, close, ignore_unknown,
  is_client_signal_message_allowed, classify_client_signal_message,
}

-- The message that a state waits for before the session has an identity, or a ping while the login
-- is awaited.
abbrev pub Awaited : SessionState → ℕ → Type 0
Awaited await_hello t = t ≡ msg_client_hello
Awaited await_server_auth t = t ≡ msg_server_auth
Awaited await_login t = (t ≡ msg_login) ⊎ (t ≡ msg_ping)
Awaited _ t = ⊥

-- Without an identity, a connection runs exactly the step of the handshake that its state waits
-- for, in the order hello, authentication, login, and a ping besides the login; any other message
-- of the handshake closes the connection.
pub classify-handshake :
    (s : SessionState) (t : ℕ)
    → session_has_peer_identity s ≡ false
    → ((classify_client_signal_message s t ≡ dispatch) ↔ Awaited s t)
      × ((is_client_handshake_message t ≡ false)
          ⊎ Awaited s t
          ⊎ (classify_client_signal_message s t ≡ close))
unfolding classify_client_signal_message is_client_signal_message_allowed
    is_client_handshake_message session_has_peer_identity is_known_client_signal_message
classify-handshake await_hello t anonymous =
    (((λ e. ground arith), (λ e. ground arith)), ground arith)
classify-handshake await_server_auth t anonymous =
    (((λ e. ground arith), (λ e. ground arith)), ground arith)
classify-handshake await_login t anonymous =
    (((λ e. ground arith), (λ e. ground arith)), ground arith)
classify-handshake closing t anonymous = (((λ e. ground arith), (λ e. absurd e)), ground arith)
classify-handshake logged_in t anonymous = cc
classify-handshake await_room_password t anonymous = cc
classify-handshake resume_pending t anonymous = cc
classify-handshake in_room t anonymous = cc

-- Every message that a state allows is a known one, so a message is run exactly when the state
-- allows it. A known one that the state does not allow closes the connection if it belongs to the
-- handshake and is answered with an error otherwise.
pub classify_client_signal_message_lem :
    (s : SessionState) (t : ℕ)
    → classify_client_signal_message s t ≡ (
        if is_client_signal_message_allowed s t
        then dispatch
        else if is_client_handshake_message t
        then close
        else if is_known_client_signal_message t
        then send_state_error
        else ignore_unknown)
unfolding classify_client_signal_message is_client_signal_message_allowed
    is_client_handshake_message is_known_client_signal_message
classify_client_signal_message_lem await_hello t = ground arith
classify_client_signal_message_lem await_server_auth t = ground arith
classify_client_signal_message_lem await_login t = ground arith
classify_client_signal_message_lem logged_in t = ground arith
classify_client_signal_message_lem await_room_password t = ground arith
classify_client_signal_message_lem resume_pending t = ground arith
classify_client_signal_message_lem in_room t = ground arith
classify_client_signal_message_lem closing t = ground arith
