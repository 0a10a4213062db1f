-- ===== src/Server/Rooms.antt =====
-- Membership of a session in a room (server/src/signal_server.cpp). `now` is `time(nullptr)`.
use vlan_connect.Prelude.{
  ltb, ◌==◌, if◌then◌else◌, length, replicate, ℕ, Bool, true, false, not, ◌&&◌, Option, none, some,
  List, [], ◌∷◌, ◌++◌,
}
use vlan_connect.Prelude.Map.{find}
use vlan_connect.Room.Leases.{
  RoomLease, Room, lease_by_peer_id, add_lease, is_empty, remove_lease, mark_lease_offline,
}
use vlan_connect.Room.Manager.{RoomManager, get_room, put_room, erase_room}
use vlan_connect.ByteBuffer.{u8_bytes, u16_bytes, u32_bytes, string_bytes}
use vlan_connect.Session.{logged_in, in_room}
use vlan_connect.Protocol.Constants.{
  reconnect_token_size, msg_peer_joined, msg_peer_left, msg_join_resp,
}
use vlan_connect.ClientMessage.Readers.{has_nonzero_reconnect_token}
use vlan_connect.ClientMessage.CreateRoom.{policy_bytes}
use vlan_connect.SecureFrame.Cipher.{Crypto}
use vlan_connect.Server.State.{ClientSession, SignalServer, update_client}
use vlan_connect.Server.Deliver.{
  error_general, send_client, send_error, broadcast_to_room, notify_relay_peers,
}
use vlan_connect.Server.RoomList.{broadcast_room_list_push}

abbrev pub zero_token : List ℕ
zero_token = replicate reconnect_token_size 0

abbrev pub zero_challenge : List ℕ
zero_challenge = replicate 32 0

unfoldable pub token_is_zero : List ℕ → Bool
unfolding has_nonzero_reconnect_token
token_is_zero token = not (has_nonzero_reconnect_token token)

-- The OR of the XORs of the bytes is 0 when each byte agrees.
unfoldable pub token_equals : List ℕ → List ℕ → Bool
token_equals [] [] = true
token_equals [] (b ∷ bs) = false
token_equals (a ∷ bs) [] = false
token_equals (a ∷ bs) (b ∷ cs) = a == b && token_equals bs cs

-- The random bytes of a new lease, or `none` when the generator fails; a token of zeros is refused.
unfoldable pub generate_lease_token : Option (List ℕ) → Option (List ℕ)
unfolding token_is_zero
generate_lease_token none = none
generate_lease_token (some token) = if token_is_zero token then none else some token

-- An offline lease whose time is over.
abbrev pub is_expired : ℕ → RoomLease → Bool
is_expired now l = not l.online && ltb 0 l.expires_at && ltb l.expires_at now

abbrev pub valid_lease : ℕ → List ℕ → Room → Option RoomLease → Option (Room × RoomLease)
valid_lease now token room none = none
valid_lease now token room (some l) =
    if not (token_equals l.token token)
    then none
    else if is_expired now l
    then none
    else some (room, l)

unfoldable pub validate_resume_lease : ℕ → ℕ → ℕ → List ℕ → SignalServer → Option (Room × RoomLease)
unfolding token_is_zero token_equals lease_by_peer_id
validate_resume_lease now room_id peer token s =
    if token_is_zero token then none else elim (get_room room_id s.rooms) [
      | none ↦ none
      | some room ↦ valid_lease now token room (lease_by_peer_id peer room)
    ]

unfoldable pub member_bytes : List RoomLease → List ℕ
member_bytes [] = []
member_bytes (l ∷ ls) =
    u32_bytes l.peer_id ++ (u32_bytes l.virtual_ip ++ (string_bytes l.name ++ member_bytes ls))

unfoldable pub join_response : ℕ → Room → List ℕ → List ℕ
unfolding member_bytes policy_bytes
join_response virtual_ip room token =
    u32_bytes room.id
    ++ (u32_bytes virtual_ip
        ++ (policy_bytes room.tcp_policy
            ++ (policy_bytes room.udp_policy
                ++ (u8_bytes room.password_protected
                    ++ (u16_bytes room.mtu
                        ++ (u8_bytes (length room.leases)
                            ++ (member_bytes room.leases ++ token)))))))

unfoldable pub room_created_response : ℕ → Room → List ℕ → List ℕ
unfolding policy_bytes
room_created_response virtual_ip room token =
    u32_bytes room.id
    ++ (u32_bytes virtual_ip
        ++ (policy_bytes room.tcp_policy
            ++ (policy_bytes room.udp_policy
                ++ (u8_bytes room.password_protected ++ (u16_bytes room.mtu ++ token)))))

unfoldable pub put_rooms : RoomManager → SignalServer → SignalServer
put_rooms m s = record s { rooms = m }

-- `removeLease`, and `eraseRoom` of a room that it leaves empty.
unfoldable pub drop_member : ℕ → ℕ → ℕ → RoomManager → RoomManager
unfolding remove_lease
drop_member now room_id peer m = elim (get_room room_id m) [
  | none ↦ m
  | some room ↦
      let room' = (remove_lease now peer room).1 in
      let m' = put_room room_id room' m in
      if is_empty room'.leases then erase_room room_id m' else m'
]

-- `markLeaseOffline` of a room that may be gone.
unfoldable pub offline_member : ℕ → ℕ → ℕ → RoomManager → RoomManager
unfolding mark_lease_offline
offline_member now room_id peer m = elim (get_room room_id m) [
  | none ↦ m
  | some room ↦ put_room room_id (mark_lease_offline peer now room).1 m
]

-- A session that is logged in and in no room.
abbrev pub without_room : ClientSession → ClientSession
without_room c = record c {
  room_id = 0;
  virtual_ip = 0;
  resume_room_id = 0;
  resume_peer_id = 0;
  resume_token = zero_token;
  state = logged_in;
}

abbrev pub within_room : ℕ → ℕ → List ℕ → ClientSession → ClientSession
within_room room_id ip token c = record c {
  room_id = room_id;
  virtual_ip = ip;
  resume_room_id = room_id;
  resume_peer_id = c.peer_id;
  resume_token = token;
  state = in_room;
}

abbrev pub dead : ClientSession → ClientSession
dead c = record c { alive = false }

unfoldable pub rollback_new_membership : ℕ → ClientSession → ℕ → SignalServer → SignalServer
unfolding drop_member put_rooms update_client
rollback_new_membership now c room_id s =
    update_client c.tcp_fd (λ d. dead (without_room d))
      (put_rooms (drop_member now room_id c.peer_id s.rooms) s)

unfoldable pub mark_session_offline : ℕ → ClientSession → SignalServer → SignalServer
unfolding offline_member put_rooms update_client
mark_session_offline now c s =
    if c.room_id == 0
    then s
    else update_client c.tcp_fd (λ d. record d { room_id = 0; virtual_ip = 0 })
        (put_rooms (offline_member now c.room_id c.peer_id s.rooms) s)

abbrev pub joined_bytes : ℕ → ℕ → List ℕ → List ℕ
joined_bytes peer ip name = u32_bytes peer ++ (u32_bytes ip ++ string_bytes name)

module _ (crypto : Crypto) where
  -- What follows an accepted join; `room` is the room with the new lease.
  unfoldable pub announce_join : ClientSession → ℕ → ℕ → SignalServer → SignalServer
  unfolding broadcast_to_room broadcast_room_list_push notify_relay_peers
  announce_join c room_id ip s =
      notify_relay_peers crypto (record c { room_id = room_id })
        (broadcast_room_list_push crypto (
          broadcast_to_room crypto room_id msg_peer_joined (joined_bytes c.peer_id ip c.name)
            c.peer_id s))

  unfoldable pub enter_room : ℕ → ClientSession → Room → RoomLease → SignalServer → SignalServer
  unfolding send_client rollback_new_membership announce_join put_rooms update_client
  enter_room now c room lease s =
      let s1 = put_rooms (put_room room.id room s.rooms) s in
      let s2 = update_client c.tcp_fd (within_room room.id lease.virtual_ip lease.token) s1 in
      let response = join_response lease.virtual_ip room lease.token in
      let (ok, s3) = send_client crypto c.tcp_fd msg_join_resp response s2 in
      if ok
      then announce_join c room.id lease.virtual_ip s3
      else rollback_new_membership now c room.id s3

  -- `random` is what the generator gives.
  unfoldable pub complete_join :
      ℕ → Option (List ℕ) → ClientSession → Room → SignalServer → SignalServer
  unfolding enter_room send_error generate_lease_token add_lease
  complete_join now random c room s = elim (generate_lease_token random) [
    | none ↦ send_error crypto c.tcp_fd "Secure random generation failed" error_general s
    | some token ↦ elim (add_lease c.peer_id c.name token room).0 [
      | none ↦ send_error crypto c.tcp_fd "Cannot join room" error_general s
      | some lease ↦ enter_room now c (add_lease c.peer_id c.name token room).1 lease s
    ]
  ]

  unfoldable pub on_leave_room : ℕ → ℕ → SignalServer → SignalServer
  unfolding broadcast_to_room broadcast_room_list_push drop_member put_rooms update_client
  on_leave_room now fd s = elim (find fd s.clients) [
    | none ↦ s
    | some c ↦
        let s1 =
          broadcast_to_room crypto c.room_id msg_peer_left (u32_bytes c.peer_id) c.peer_id s in
        let s2 = put_rooms (drop_member now c.room_id c.peer_id s1.rooms) s1 in
        if c.room_id == 0
        then s
        else broadcast_room_list_push crypto (update_client fd without_room s2)
  ]
