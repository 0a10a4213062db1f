-- ===== src/ClientMessage/Tests.antt =====
-- Messages of a client that logs in, resumes, creates a room and relays.
use vlan_connect.Prelude.{
  replicate, codes, ℕ, ◌≡◌, refl, ◌↔◌, true, Option, none, some, List, [], ◌∷◌, ◌++◌, arith,
}
use vlan_connect.Protocol.Constants.{
  protocol_version, msg_login, msg_create_room, msg_resume_room, msg_tcp_relay_data,
}
use vlan_connect.Protocol.Names.{is_valid_player_name, is_valid_room_name, is_valid_player_name_iff}
use vlan_connect.Protocol.Policy.{make_default_tcp_policy, make_default_udp_policy}
use vlan_connect.Protocol.Traffic.{traffic_udp}
use vlan_connect.ByteBuffer.{u32_bytes}
use vlan_connect.ByteBuffer.RoundTrip.{all_bytes-IsBytes}
use vlan_connect.ClientMessage.{validate_client_signal_payload}
use vlan_connect.ClientMessage.Readers.{or_all, has_nonzero_reconnect_token}
use vlan_connect.ClientMessage.Login.{
  Resume, resume_bytes, login_body, IsLease, IsResume, validate-login_body, validate-login_body_inv,
}
use vlan_connect.ClientMessage.CreateRoom.{create_room_body, IsSecret, validate-create_room_body}
use vlan_connect.ClientMessage.Short.{
  resume_room_body, relay_data_body, validate-resume_room_body, validate-relay_data_body,
}

abbrev known_one : Resume
known_one = record { room = 1; peer = 11; token = replicate 32 5 }

known_one-IsLease : IsLease 1 11 known_one.token
unfolding has_nonzero_reconnect_token or_all
known_one-IsLease = record {
  room_low = omega arith;
  room_high = omega arith;
  peer_low = omega arith;
  peer_high = omega arith;
  token_length = refl;
  token_known = refl;
}

alice_valid : is_valid_player_name (codes "alice") ≡ true
alice_valid = (is_valid_player_name_iff (codes "alice")).1 (ground arith)

validate-login_body_example :
    validate_client_signal_payload msg_login
      (login_body (codes "alice") protocol_version (some known_one))
    ≡ true
unfolding IsResume
validate-login_body_example =
    validate-login_body (codes "alice") protocol_version (some known_one) alice_valid (omega arith)
      known_one-IsLease

abbrev login_bytes : List ℕ
login_bytes = 0 ∷ 5 ∷ codes "alice" ++ (0 ∷ 9 ∷ 0 ∷ [])

validate-login_body_inv_example :
    (name : List ℕ) × (version : ℕ) × (resume : Option Resume) × (is_valid_player_name name ≡ true)
    × IsResume resume
    × (login_bytes ≡ login_body name version resume)
unfolding login_body resume_bytes IsResume
validate-login_body_inv_example =
    validate-login_body_inv login_bytes (all_bytes-IsBytes login_bytes refl)
      (validate-login_body (codes "alice") 9 none alice_valid (omega arith) tt)

validate-create_room_body_example :
    validate_client_signal_payload msg_create_room
      (create_room_body (codes "lan") 4 make_default_tcp_policy make_default_udp_policy 1400 none)
    ≡ true
unfolding IsSecret is_valid_room_name
validate-create_room_body_example =
    validate-create_room_body (codes "lan") 4 make_default_tcp_policy make_default_udp_policy 1400
      none refl (omega arith, omega arith) (λ e. refl) (λ e. refl) tt

abbrev resume_message : List ℕ
resume_message = u32_bytes 1 ++ (u32_bytes 11 ++ replicate 32 5)

validate-resume_room_body_example :
    (validate_client_signal_payload msg_resume_room resume_message ≡ true)
    ↔ ((r : Resume) × IsLease r.room r.peer r.token × (resume_message ≡ resume_room_body r))
validate-resume_room_body_example =
    validate-resume_room_body resume_message (all_bytes-IsBytes resume_message refl)

validate-relay_data_body_example :
    validate_client_signal_payload msg_tcp_relay_data
      (relay_data_body 11 12 traffic_udp (1 ∷ 2 ∷ []))
    ≡ true
validate-relay_data_body_example =
    validate-relay_data_body 11 12 traffic_udp (1 ∷ 2 ∷ []) (omega arith, omega arith)
      (omega arith, omega arith)
