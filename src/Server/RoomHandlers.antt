-- ===== src/Server/RoomHandlers.antt =====
-- The handlers that make, enter and leave rooms (server/src/signal_server.cpp). `now`, `random` and
-- `allowed` are as in the other handlers.
use vlan_connect.Prelude.{
  ltb, leb, ◌==◌, if◌then◌else◌, length, replicate, ◌>>=◌, return, ℕ, Bool, true, false, not, ◌||◌,
  Option, none, some, List, ◌++◌,
}
use vlan_connect.Prelude.Map.{find}
use vlan_connect.Room.Leases.{RoomLease, Room, is_full, add_lease}
use vlan_connect.Room.Manager.{RoomConfig, create_room, get_room, put_room, erase_room}
use vlan_connect.ByteBuffer.{u8_bytes}
use vlan_connect.ByteBuffer.Parser.{Parse, p_u8, p_u16, p_u32, p_bytes, p_string}
use vlan_connect.Session.{SessionState, logged_in, await_room_password}
use vlan_connect.Protocol.Constants.{
  max_players, auth_salt_size, msg_room_created, msg_auth_challenge,
}
use vlan_connect.Protocol.Names.{is_valid_room_name}
use vlan_connect.Protocol.Policy.{
  is_valid_room_mtu_value, RoomTrafficPolicy, make_default_tcp_policy, make_default_udp_policy,
  normalize_traffic_policy, is_valid_policy_values,
}
use vlan_connect.SecureFrame.Cipher.{Crypto}
use vlan_connect.Server.State.{ClientSession, SignalServer, update_client}
use vlan_connect.Server.Deliver.{
  error_general, error_rate_limited, error_room_password, send_client, send_error,
}
use vlan_connect.Server.RoomList.{broadcast_room_list_push}
use vlan_connect.Server.Rooms.{
  zero_challenge, generate_lease_token, room_created_response, put_rooms, within_room,
  rollback_new_membership, complete_join,
}
use vlan_connect.Server.Expiry.{cleanup_expired_leases}
use vlan_connect.Server.Handlers.{kill_client}

unfoldable pub parse_triple : Parse (ℕ × ℕ × ℕ)
parse_triple = do mode ← p_u8; fec ← p_u8; profile ← p_u8; return (mode, fec, profile)

-- The salt and the hash of a password; zeros where there is none.
unfoldable pub parse_password : ℕ → Parse (List ℕ × List ℕ)
parse_password protected =
    if protected == 0
    then return (replicate auth_salt_size 0, replicate 32 0)
    else do salt ← p_bytes auth_salt_size; hash ← p_bytes 32; return (salt, hash)

unfoldable pub parse_policies : Parse ((ℕ × ℕ × ℕ) × (ℕ × ℕ × ℕ))
unfolding parse_triple
parse_policies = do tcp ← parse_triple; udp ← parse_triple; return (tcp, udp)

-- From the password flag to the MTU.
unfoldable pub parse_end : Parse (ℕ × (List ℕ × List ℕ) × ℕ)
unfolding parse_password
parse_end = do
  protected ← p_u8
  secret ← parse_password protected
  mtu ← p_u16
  return (protected, secret, mtu)

abbrev pub valid_triple : ℕ × ℕ × ℕ → Bool
valid_triple (mode, fec, profile) = is_valid_policy_values mode fec profile

abbrev pub policy_of : ℕ × ℕ × ℕ → RoomTrafficPolicy → RoomTrafficPolicy
policy_of (mode, fec, profile) fallback = normalize_traffic_policy mode fec profile fallback

abbrev pub auth_kdf_profile : ℕ
auth_kdf_profile = 1

abbrev pub waits_for_password : SessionState → Bool
waits_for_password await_room_password = true
waits_for_password _ = false

module _ (crypto : Crypto) where
  -- What a new room answers to its maker.
  unfoldable pub open_room : ℕ → ℕ → Room → RoomLease → SignalServer → SignalServer
  unfolding send_client rollback_new_membership update_client broadcast_room_list_push
  open_room now fd room lease s = elim (find fd s.clients) [
    | none ↦ s
    | some c ↦
        let s1 = update_client fd (within_room room.id lease.virtual_ip lease.token) s in
        let response = room_created_response lease.virtual_ip room lease.token in
        let (ok, s2) = send_client crypto fd msg_room_created response s1 in
        if ok then broadcast_room_list_push crypto s2 else rollback_new_membership now c room.id s2
  ]

  unfoldable pub make_room :
      ℕ → ℕ → ClientSession → RoomConfig → List ℕ → SignalServer → SignalServer
  unfolding create_room add_lease open_room put_rooms send_error
  make_room now fd c config token s =
      let (room, m) = create_room config s.rooms in
      elim (add_lease c.peer_id c.name token room).0 [
        | none ↦
            send_error crypto fd "Cannot allocate virtual IP" error_general
              (put_rooms (erase_room room.id m) s)
        | some lease ↦
            let room' = (add_lease c.peer_id c.name token room).1 in
            open_room now fd room' lease (put_rooms (put_room room.id room' m) s)
      ]

  -- The end of the request, from its password flag on.
  unfoldable pub create_read :
      ℕ
      → ℕ
      → Option (List ℕ)
      → ClientSession
      → List ℕ
      → ℕ
      → RoomTrafficPolicy
      → RoomTrafficPolicy
      → ℕ × (List ℕ × List ℕ) × ℕ
      → SignalServer
      → SignalServer
  unfolding make_room generate_lease_token send_error
  create_read now fd random c name players tcp udp (protected, (salt, hash), mtu) s =
      if not (is_valid_room_mtu_value mtu)
      then kill_client fd s
      else elim (generate_lease_token random) [
        | none ↦ send_error crypto fd "Secure random generation failed" error_general s
        | some token ↦
            make_room now fd c
              (record {
                name = name;
                host = c.peer_id;
                max_players = players;
                tcp_policy = tcp;
                udp_policy = udp;
                mtu = mtu;
                password_protected = protected;
                password_hash = some hash;
                password_salt = some salt;
              })
              token s
      ]

  unfoldable pub create_with_policies :
      ℕ
      → ℕ
      → Option (List ℕ)
      → ClientSession
      → List ℕ
      → ℕ
      → ((ℕ × ℕ × ℕ) × (ℕ × ℕ × ℕ)) × List ℕ
      → SignalServer
      → SignalServer
  unfolding create_read send_error parse_end
  create_with_policies now fd random c name players ((tcp, udp), body) s =
      if not (valid_triple tcp) || not (valid_triple udp)
      then send_error crypto fd "Invalid traffic policy" error_general s
      else elim (parse_end body) [
        | none ↦ kill_client fd s
        | some p ↦
            create_read now fd random c name players (policy_of tcp make_default_tcp_policy)
              (policy_of udp make_default_udp_policy) p.0 s
      ]

  unfoldable pub create_with_players :
      ℕ → ℕ → Option (List ℕ) → ClientSession → List ℕ → ℕ × List ℕ → SignalServer → SignalServer
  unfolding create_with_policies send_error parse_policies
  create_with_players now fd random c name (players, rest) s =
      if ltb players 2 || ltb max_players players
      then send_error crypto fd "Invalid max players" error_general s
      else if ltb (length rest) 6
      then send_error crypto fd "Missing traffic policies" error_general s
      else elim (parse_policies rest) [
        | none ↦ kill_client fd s
        | some p ↦ create_with_policies now fd random c name players p s
      ]

  unfoldable pub create_named :
      ℕ → ℕ → Option (List ℕ) → ClientSession → List ℕ × List ℕ → SignalServer → SignalServer
  unfolding create_with_players send_error p_u8
  create_named now fd random c (name, body) s =
      if not (is_valid_room_name name)
      then send_error crypto fd "Invalid room name" error_general s
      else elim (p_u8 body) [
        | none ↦ kill_client fd s
        | some p ↦ create_with_players now fd random c name p s
      ]

  unfoldable pub on_create_room :
      ℕ → Option (List ℕ) → Bool → ℕ → List ℕ → SignalServer → SignalServer
  unfolding create_named send_error p_string
  on_create_room now random allowed fd body s = elim (find fd s.clients) [
    | none ↦ s
    | some c ↦
        if c.peer_id == 0
        then send_error crypto fd "Not logged in" error_general s
        else if not (c.room_id == 0)
        then send_error crypto fd "Already in a room" error_general s
        else if not allowed
        then send_error crypto fd "Room creation rate limit exceeded" error_general s
        else if leb s.max_rooms (length s.rooms.rooms)
        then send_error crypto fd "Room capacity reached" error_general s
        else elim (p_string body) [
          | none ↦ kill_client fd s
          | some p ↦ create_named now fd random c p s
        ]
  ]

  -- The challenge of a room with a password.
  unfoldable pub ask_password : Option (List ℕ) → Bool → ℕ → ℕ → Room → SignalServer → SignalServer
  unfolding send_error update_client send_client
  ask_password random allowed fd room_id room s =
      if not allowed
      then send_error crypto fd "Room authentication rate limit exceeded" error_rate_limited s
      else elim random [
        | none ↦
            send_error crypto fd "Secure random generation failed" error_general
              (update_client fd (λ c. record c { pending_join_room_id = 0; state = logged_in }) s)
        | some challenge ↦
            (send_client crypto fd msg_auth_challenge
              (u8_bytes auth_kdf_profile ++ (room.password_salt ++ challenge))
              (update_client fd
                (λ c. record c {
                  pending_join_room_id = room_id;
                  state = await_room_password;
                  auth_challenge = challenge;
                })
                s)).1
      ]

  unfoldable pub join_found :
      ℕ → Option (List ℕ) → Bool → ClientSession → ℕ → SignalServer → SignalServer
  unfolding ask_password complete_join send_error
  join_found now random allowed c room_id s = elim (get_room room_id s.rooms) [
    | none ↦ send_error crypto c.tcp_fd "Room not found" error_general s
    | some room ↦
        if is_full room
        then send_error crypto c.tcp_fd "Room is full" error_general s
        else if not (room.password_protected == 0)
        then ask_password random allowed c.tcp_fd room_id room s
        else complete_join crypto now random c room s
  ]

  unfoldable pub on_join_room :
      ℕ → Option (List ℕ) → Bool → ℕ → List ℕ → SignalServer → SignalServer
  unfolding join_found cleanup_expired_leases send_error p_u32
  on_join_room now random allowed fd body s = elim (find fd s.clients) [
    | none ↦ s
    | some c ↦
        let s1 = cleanup_expired_leases crypto now s in
        if c.peer_id == 0
        then send_error crypto fd "Not logged in" error_general s
        else if not (c.room_id == 0)
        then send_error crypto fd "Already in a room" error_general s
        else elim (p_u32 body) [
          | none ↦ kill_client fd s1
          | some p ↦ join_found now random allowed c p.0 s1
        ]
  ]

  abbrev pub back_to_lobby : ClientSession → ClientSession
  back_to_lobby c = record c {
    auth_challenge = zero_challenge;
    state = logged_in;
    pending_join_room_id = 0;
  }

  -- The answer to the challenge, for a room that is still there.
  unfoldable pub check_password :
      ℕ → Option (List ℕ) → ClientSession → Room → List ℕ → SignalServer → SignalServer
  unfolding send_error complete_join update_client
  check_password now random c room body s =
      let s1 = update_client c.tcp_fd back_to_lobby s in
      let expected = crypto.keyed_hash room.password_hash c.auth_challenge in
      if not (length body == 32) || not (crypto.verify32 expected body)
      then send_error crypto c.tcp_fd "Invalid room password" error_room_password s1
      else if is_full room
      then send_error crypto c.tcp_fd "Room is full" error_general s1
      else complete_join crypto now random c room s1

  unfoldable pub on_auth_response : ℕ → Option (List ℕ) → ℕ → List ℕ → SignalServer → SignalServer
  unfolding check_password cleanup_expired_leases send_error update_client
  on_auth_response now random fd body s = elim (find fd s.clients) [
    | none ↦ s
    | some c ↦
        let s1 = cleanup_expired_leases crypto now s in
        if not (waits_for_password c.state) || c.pending_join_room_id == 0
        then send_error crypto fd "Unexpected auth response" error_general s
        else elim (get_room c.pending_join_room_id s1.rooms) [
          | none ↦
              send_error crypto fd "Room not found" error_general
                (update_client fd back_to_lobby s1)
          | some room ↦ check_password now random c room body s1
        ]
  ]
