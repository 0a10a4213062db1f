-- ===== src/ClientMessage.antt =====
-- server/src/client_message_validator.h: the check of every message that a client sends.
-- The payload is its list of bytes; a null pointer comes with length 0. `crypto_wipe` clears a
-- local copy that is not read again, and is left out.
pub mod Readers
pub mod Verdict
pub mod Login
pub mod CreateRoom
pub mod Short
mod Tests
use vlan_connect.Prelude.{
  ltb, leb, ◌==◌, if◌then◌else◌, length, ℕ, ◌+◌, Bool, true, false, not, ◌||◌, Option, none, some,
  List,
}
use vlan_connect.Protocol.Constants.{
  reconnect_token_size, msg_login, msg_create_room, msg_join_room, msg_leave_room,
  msg_request_relay, msg_list_rooms, msg_resume_room, msg_logout, msg_tcp_relay_data,
  msg_client_hello, msg_server_auth, msg_encrypted, msg_auth_response, msg_ping,
}
use vlan_connect.ByteBuffer.{from_bytes, Read}
use vlan_connect.ClientMessage.Readers.{
  read_login, read_create_room, read_room_or_peer, read_resume_room, read_relay_data,
}

-- What the reads decide; an exception rejects the message.
abbrev pub verdict : {S : Type 0} → Option (Bool × S) → Bool
verdict none = false
verdict (some (ok, b)) = ok

abbrev pub check : Read Bool → List ℕ → Bool
check r payload = verdict (r (from_bytes payload))

abbrev pub secure_frame_overhead : ℕ
secure_frame_overhead = 8 + 16

unfoldable pub validate_client_signal_payload : ℕ → List ℕ → Bool
validate_client_signal_payload t payload =
    let len = length payload in
    if t == msg_client_hello
    then len == 2 + 16 + 32
    else if t == msg_server_auth
    then len == 32
    else if t == msg_encrypted
    then leb (secure_frame_overhead + 1) len
    else if t == msg_login
    then (if len == 0 then false else check read_login payload)
    else if t == msg_create_room
    then (if len == 0 then false else check read_create_room payload)
    else if t == msg_join_room || t == msg_request_relay
    then (if not (len == 4) then false else check read_room_or_peer payload)
    else if t == msg_resume_room
    then (if not (len == 4 + 4 + reconnect_token_size)
        then false
        else check read_resume_room payload)
    else if t == msg_auth_response
    then len == 32
    else if t == msg_leave_room || t == msg_logout || t == msg_list_rooms || t == msg_ping
    then len == 0
    else if t == msg_tcp_relay_data
    then (if ltb len 9 then false else check read_relay_data payload)
    else true
