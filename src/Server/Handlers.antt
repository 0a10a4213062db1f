-- ===== src/Server/Handlers.antt =====
-- The handlers of the clients' messages (server/src/signal_server.cpp). `now` is `time(nullptr)`,
-- `random` what the generator of random bytes gives, `allowed` the answer of `takeIpToken`. An
-- exception ends in `alive = false`, as the caller's `catch` has it.
use Prim.Native.String.{String}
use vlan_connect.Prelude.{
  ltb, ◌==◌, if◌then◌else◌, ◌>>=◌, return, fail, ℕ, Bool, true, false, not, ◌&&◌, ◌||◌, Option,
  none, some, List, [], ◌∷◌, ◌++◌,
}
use vlan_connect.Prelude.Map.{find}
use vlan_connect.Room.Leases.{RoomLease, is_some, is_empty}
use vlan_connect.ByteBuffer.{u8_bytes, u16_bytes, u32_bytes}
use vlan_connect.ByteBuffer.Parser.{Parse, p_u8, p_u16, p_u32, p_bytes, p_string, p_at_end}
use vlan_connect.Protocol.Traffic.{traffic_tcp, traffic_udp, traffic_value}
use vlan_connect.Session.{SessionState, await_login, logged_in, resume_pending, closing}
use vlan_connect.Protocol.Constants.{
  reconnect_token_size, protocol_version, msg_login_resp, msg_tcp_relay_data, msg_pong,
}
use vlan_connect.Protocol.Names.{is_valid_player_name}
use vlan_connect.SecureFrame.Cipher.{Crypto}
use vlan_connect.Server.State.{ClientSession, SignalServer, update_client}
use vlan_connect.Server.Index.{
  find_client_owner_by_peer_id, find_client_by_peer_id, bind_peer_index, allocate_peer_id,
  release_peer_id,
}
use vlan_connect.Server.Deliver.{
  error_general, error_version_mismatch, send_client, send_data, send_error, send_relay_ready,
}
use vlan_connect.Server.RoomList.{
  collect_room_list_state, same_name, build_room_list_pages, send_pages,
}
use vlan_connect.Server.Rooms.{zero_token, validate_resume_lease, put_rooms, offline_member, dead}
use vlan_connect.Server.Teardown.{takeover, destroy_client}
use vlan_connect.Server.Expiry.{cleanup_expired_leases}

abbrev pub kill_client : ℕ → SignalServer → SignalServer
kill_client fd s = update_client fd dead s

abbrev pub login_response : ℕ → ℕ → List ℕ
login_response peer resumed = u32_bytes peer ++ (u16_bytes protocol_version ++ u8_bytes resumed)

-- Another session that has a peer number has the name.
unfoldable pub name_in_use : ℕ → List ℕ → List (ℕ × ClientSession) → Bool
name_in_use fd name [] = false
name_in_use fd name ((k, c) ∷ cs) =
    (not (c.peer_id == 0) && same_name c.name name && not (k == fd)) || name_in_use fd name cs

-- The session that had the peer number before, if it is another one.
unfoldable pub take_over : ℕ → ℕ → Option ClientSession → SignalServer → SignalServer
unfolding destroy_client
take_over now fd none s = s
take_over now fd (some c) s = if c.tcp_fd == fd then s else destroy_client now c.tcp_fd takeover s

abbrev pub mismatch : String
mismatch = "Protocol mismatch: server v9; update GUI/CLI and server together."

unfoldable pub parse_resume : ℕ → Parse (Option (ℕ × ℕ × List ℕ))
parse_resume flag = if flag == 0 then return none else do
  room_id ← p_u32
  peer ← p_u32
  token ← p_bytes reconnect_token_size
  return (some (room_id, peer, token))

-- The read of a login's body. What `none` stands for is thrown.
unfoldable pub parse_login_body : Parse (List ℕ × ℕ × Option (ℕ × ℕ × List ℕ))
unfolding parse_resume
parse_login_body = do
  name ← p_string
  version ← p_u16
  flag ← p_u8
  if ltb 1 flag then fail else do
    resume ← parse_resume flag
    λ rest. if p_at_end rest then some ((name, version, resume), rest) else none

abbrev pub is_await_login : SessionState → Bool
is_await_login await_login = true
is_await_login _ = false

-- `len < 9` returns before a read can fail.
unfoldable pub parse_relay : Parse (ℕ × ℕ × ℕ)
parse_relay = do
  source ← p_u32
  dst_id ← p_u32
  traffic_class ← p_u8
  return (source, dst_id, traffic_class)

abbrev pub same_room : ClientSession → ClientSession → Bool
same_room c d = not (c.room_id == 0) && not (d.room_id == 0) && c.room_id == d.room_id

abbrev pub relay_body : ClientSession → ℕ → ℕ → List ℕ → List ℕ
relay_body c dst_id traffic_class payload =
    u32_bytes c.peer_id ++ (u32_bytes dst_id ++ (u8_bytes traffic_class ++ payload))

module _ (crypto : Crypto) where
  -- A login that takes up a lease: the session that has its peer number ends first.
  unfoldable pub resume_login :
      ℕ → ℕ → List ℕ → ℕ → ℕ → RoomLease → List ℕ → SignalServer → SignalServer
  unfolding find_client_owner_by_peer_id take_over offline_member put_rooms update_client
      bind_peer_index send_client
  resume_login now fd name room_id peer lease token s =
      let (old, s1) = find_client_owner_by_peer_id peer s in
      let s2 = take_over now fd old s1 in
      let s3 =
        update_client fd
          (λ c. record c {
            name = if is_empty lease.name then name else lease.name;
            peer_id = peer;
            resume_room_id = room_id;
            resume_peer_id = peer;
            resume_token = token;
            state = resume_pending;
          })
          s2 in
      let s4 = put_rooms (offline_member now room_id peer s3.rooms) s3 in
      elim (find fd s4.clients) [
        | none ↦ s4
        | some c ↦
            let (bound, s5) = bind_peer_index c peer s4 in
            if bound
            then (send_client crypto fd msg_login_resp (login_response peer 1) s5).1
            else kill_client fd s5
      ]

  unfoldable pub fresh_login : ℕ → List ℕ → SignalServer → SignalServer
  unfolding name_in_use send_error allocate_peer_id release_peer_id update_client bind_peer_index
      send_client
  fresh_login fd name s =
      let (peer, s1) = allocate_peer_id s in
      let s2 =
        update_client fd
          (λ c. record c {
            name = name;
            peer_id = peer;
            resume_room_id = 0;
            resume_peer_id = 0;
            resume_token = zero_token;
            state = logged_in;
          })
          s1 in
      if name_in_use fd name s.clients
      then send_error crypto fd "Name already in use" error_general s
      else elim (find fd s2.clients) [
        | none ↦ s2
        | some c ↦
            let (bound, s3) = bind_peer_index c peer s2 in
            if bound
            then (send_client crypto fd msg_login_resp (login_response peer 0) s3).1
            else kill_client fd
                (release_peer_id peer (update_client fd (λ d. record d { peer_id = 0 }) s3))
      ]

  -- The three parts of a login that was read.
  unfoldable pub login_of :
      ℕ → ℕ → List ℕ → ℕ → Option (ℕ × ℕ × List ℕ) → SignalServer → SignalServer
  unfolding resume_login fresh_login send_error validate_resume_lease update_client
  login_of now fd name version resume s =
      if not (version == protocol_version)
      then update_client fd (λ c. record c { state = closing })
          (send_error crypto fd mismatch error_version_mismatch s)
      else if not (is_valid_player_name name)
      then send_error crypto fd "Invalid player name" error_general s
      else elim resume [
        | none ↦ fresh_login fd name s
        | some (room_id, peer, token) ↦ elim (validate_resume_lease now room_id peer token s) [
          | none ↦ fresh_login fd name s
          | some (room, lease) ↦ resume_login now fd name room_id peer lease token s
        ]
      ]

  unfoldable pub on_login : ℕ → ℕ → List ℕ → SignalServer → SignalServer
  unfolding login_of p_string p_u16 p_u8 parse_resume
  on_login now fd body s = elim (find fd s.clients) [
    | none ↦ s
    | some c ↦
        if is_await_login c.state
        then elim (parse_login_body body) [
          | none ↦ kill_client fd s
          | some ((name, version, resume), rest) ↦ login_of now fd name version resume s
        ]
        else kill_client fd s
  ]

  unfoldable pub on_list_rooms : ℕ → ℕ → SignalServer → SignalServer
  unfolding cleanup_expired_leases collect_room_list_state build_room_list_pages send_pages
  on_list_rooms now fd s =
      let s1 = cleanup_expired_leases crypto now s in
      send_pages crypto fd
        (build_room_list_pages s1.room_list_revision (collect_room_list_state s1)) s1

  unfoldable pub on_ping : ℕ → SignalServer → SignalServer
  unfolding send_client
  on_ping fd s = (send_client crypto fd msg_pong [] s).1

  -- The request of a session for a relay to a peer.
  unfoldable pub request_of : ℕ → ℕ → SignalServer → SignalServer
  unfolding find_client_by_peer_id send_relay_ready
  request_of fd peer s = elim (find fd s.clients) [
    | none ↦ s
    | some c ↦ elim (find_client_by_peer_id peer s).0 [
      | none ↦ (find_client_by_peer_id peer s).1
      | some target ↦
          let s1 = (find_client_by_peer_id peer s).1 in
          if same_room c target
          then send_relay_ready crypto target.tcp_fd c.peer_id (send_relay_ready crypto fd peer s1)
          else s1
    ]
  ]

  unfoldable pub on_request_relay : ℕ → List ℕ → SignalServer → SignalServer
  unfolding p_u32 request_of
  on_request_relay fd body s = elim (p_u32 body) [
    | none ↦ kill_client fd s
    | some p ↦ request_of fd p.0 s
  ]

  -- The data channel, or the signal channel where that fails.
  unfoldable pub forward : ClientSession → List ℕ → SignalServer → SignalServer
  unfolding send_data send_client
  forward dst body s =
      let (ok, s1) = send_data crypto dst.tcp_fd msg_tcp_relay_data body s in
      if is_some dst.data_fd
      then if ok then s1 else (send_client crypto dst.tcp_fd msg_tcp_relay_data body s1).1
      else (send_client crypto dst.tcp_fd msg_tcp_relay_data body s).1

  unfoldable pub relay_to : ClientSession → ℕ → ℕ → List ℕ → SignalServer → SignalServer
  unfolding find_client_by_peer_id forward
  relay_to c dst_id traffic_class payload s = elim (find_client_by_peer_id dst_id s).0 [
    | none ↦ (find_client_by_peer_id dst_id s).1
    | some dst ↦
        let s1 = (find_client_by_peer_id dst_id s).1 in
        if same_room c dst then forward dst (relay_body c dst_id traffic_class payload) s1 else s1
  ]

  -- What was read of the message: its source, its destination, its class and its payload.
  unfoldable pub relay_read : ClientSession → (ℕ × ℕ × ℕ) × List ℕ → SignalServer → SignalServer
  unfolding relay_to
  relay_read c ((source, dst_id, traffic_class), payload) s =
      if not (source == c.peer_id)
        || (not (traffic_class == traffic_value traffic_tcp)
            && not (traffic_class == traffic_value traffic_udp))
      then s
      else relay_to c dst_id traffic_class payload s

  unfoldable pub on_tcp_relay_data : ℕ → List ℕ → SignalServer → SignalServer
  unfolding relay_read parse_relay
  on_tcp_relay_data fd body s = elim (find fd s.clients) [
    | none ↦ s
    | some c ↦ elim (parse_relay body) [ none ↦ s | some p ↦ relay_read c p s ]
  ]
