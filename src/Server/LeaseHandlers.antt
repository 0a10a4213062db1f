-- ===== src/Server/LeaseHandlers.antt =====
-- The handlers that take up a lease again and that give it up (server/src/signal_server.cpp).
use vlan_connect.Prelude.{
  ◌==◌, if◌then◌else◌, ℕ, Bool, true, false, not, ◌&&◌, Option, none, some, List, [],
}
use vlan_connect.Prelude.Map.{find}
use vlan_connect.Room.Leases.{RoomLease, Room, lease_by_peer_id, mark_lease_online}
use vlan_connect.Room.Manager.{RoomManager, get_room, put_room}
use vlan_connect.ByteBuffer.{u32_bytes}
use vlan_connect.Session.{logged_in, closing}
use vlan_connect.Protocol.Constants.{msg_peer_left, msg_join_resp, msg_logout_ack, msg_peer_resumed}
use vlan_connect.SecureFrame.Cipher.{Crypto}
use vlan_connect.Server.State.{ClientSession, SignalServer, update_client}
use vlan_connect.Server.Index.{bind_peer_index, unbind_client_indexes, release_peer_id}
use vlan_connect.Server.Deliver.{
  error_general, send_client, send_error, broadcast_to_room, notify_relay_peers,
}
use vlan_connect.Server.RoomList.{broadcast_room_list_push}
use vlan_connect.Server.Rooms.{
  zero_token, zero_challenge, token_equals, is_expired, validate_resume_lease, join_response,
  put_rooms, drop_member, offline_member, within_room, joined_bytes,
}
use vlan_connect.Server.Teardown.{is_resume_pending, close_data}
use vlan_connect.Server.Handlers.{kill_client, parse_resume}

abbrev pub fits_lease : List ℕ → Option RoomLease → Bool
fits_lease token none = false
fits_lease token (some l) = token_equals l.token token

abbrev pub fits_expired : ℕ → List ℕ → Option RoomLease → Bool
fits_expired now token none = false
fits_expired now token (some l) = is_expired now l && token_equals l.token token

-- A room's lease that satisfies a test.
unfoldable pub lease_passes : ℕ → ℕ → (Option RoomLease → Bool) → RoomManager → Bool
unfolding lease_by_peer_id
lease_passes room_id peer test m = elim (get_room room_id m) [
  | none ↦ false
  | some room ↦ test (lease_by_peer_id peer room)
]

module _ (crypto : Crypto) where
  -- The members are told, then the lease goes.
  unfoldable pub give_up : ℕ → ℕ → ℕ → SignalServer → SignalServer
  unfolding broadcast_to_room drop_member put_rooms
  give_up now room_id peer s =
      let s1 = broadcast_to_room crypto room_id msg_peer_left (u32_bytes peer) peer s in
      put_rooms (drop_member now room_id peer s1.rooms) s1

  -- What follows a resumed membership: the member and the relays are announced.
  unfoldable pub announce_resume : ClientSession → ℕ → RoomLease → SignalServer → SignalServer
  unfolding broadcast_to_room notify_relay_peers
  announce_resume c room_id lease s =
      notify_relay_peers crypto (record c { room_id = room_id })
        (broadcast_to_room crypto room_id msg_peer_resumed
          (joined_bytes c.peer_id lease.virtual_ip lease.name) c.peer_id s)

  unfoldable pub complete_resume :
      ℕ → ClientSession → ℕ → Room → RoomLease → SignalServer → SignalServer
  unfolding mark_lease_online put_rooms update_client bind_peer_index send_client offline_member
      announce_resume
  complete_resume now c room_id room lease s =
      let room' = (mark_lease_online lease.peer_id room).1 in
      let s1 = put_rooms (put_room room_id room' s.rooms) s in
      let s2 =
        update_client c.tcp_fd
          (λ d. record (within_room room_id lease.virtual_ip lease.token d) { name = lease.name })
          s1 in
      let (bound, s3) = bind_peer_index c c.peer_id s2 in
      let response = join_response lease.virtual_ip room' lease.token in
      let (ok, s4) = send_client crypto c.tcp_fd msg_join_resp response s3 in
      if not bound
      then kill_client c.tcp_fd s3
      else if ok
      then announce_resume c room_id lease s4
      else kill_client c.tcp_fd (put_rooms (offline_member now room_id c.peer_id s4.rooms) s4)

  -- A resume that came too late: the stale lease is given up for the members.
  unfoldable pub resume_expired : ℕ → ℕ → ℕ → ℕ → List ℕ → SignalServer → SignalServer
  unfolding give_up broadcast_room_list_push update_client send_error lease_passes
  resume_expired now fd room_id peer token s =
      let s1 =
        if lease_passes room_id peer (fits_expired now token) s.rooms
        then broadcast_room_list_push crypto (give_up now room_id peer s)
        else s in
      send_error crypto fd "Resume expired" error_general (
        update_client fd
          (λ c. record c {
            state = logged_in;
            resume_room_id = 0;
            resume_peer_id = 0;
            resume_token = zero_token;
          })
          s1)

  -- The request agrees with what the login has stored.
  abbrev pub agrees : ℕ → ℕ → List ℕ → ClientSession → Bool
  agrees room_id peer token c =
      is_resume_pending c.state
      && c.peer_id == peer
      && c.resume_room_id == room_id
      && c.resume_peer_id == peer
      && token_equals c.resume_token token

  -- A request that was read; what it reads is there when the flag is 1.
  unfoldable pub resume_found :
      ℕ → ClientSession → ℕ → ℕ → List ℕ → Option (Room × RoomLease) → SignalServer → SignalServer
  unfolding complete_resume resume_expired
  resume_found now c room_id peer token none s = resume_expired now c.tcp_fd room_id peer token s
  resume_found now c room_id peer token (some (room, lease)) s =
      complete_resume now c room_id room lease s

  unfoldable pub resume_read :
      ℕ → ClientSession → Option (ℕ × ℕ × List ℕ) → SignalServer → SignalServer
  unfolding validate_resume_lease resume_found send_error
  resume_read now c none s = kill_client c.tcp_fd s
  resume_read now c (some (room_id, peer, token)) s =
      if not (agrees room_id peer token c)
      then send_error crypto c.tcp_fd "Resume rejected" error_general s
      else resume_found now c room_id peer token (validate_resume_lease now room_id peer token s) s

  unfoldable pub on_resume_room : ℕ → ℕ → List ℕ → SignalServer → SignalServer
  unfolding resume_read send_error parse_resume
  on_resume_room now fd body s = elim (find fd s.clients) [
    | none ↦ s
    | some c ↦
        if c.peer_id == 0
        then send_error crypto fd "Not logged in" error_general s
        else elim (parse_resume 1 body) [
          | none ↦ kill_client fd s
          | some p ↦ resume_read now c p.0 s
        ]
  ]

  -- What a logout gives up: the session's room, or the lease that it was about to resume.
  unfoldable pub logout_lease : ℕ → ClientSession → SignalServer → Bool × SignalServer
  unfolding give_up lease_passes
  logout_lease now c s =
      if not (c.room_id == 0) && not (c.peer_id == 0)
      then (true, give_up now c.room_id c.peer_id s)
      else if is_resume_pending c.state
          && not (c.resume_room_id == 0)
          && not (c.resume_peer_id == 0)
          && lease_passes c.resume_room_id c.resume_peer_id (fits_lease c.resume_token) s.rooms
      then (true, give_up now c.resume_room_id c.resume_peer_id s)
      else (false, s)

  abbrev pub logged_out : ClientSession → ClientSession
  logged_out c = record c {
    peer_id = 0;
    room_id = 0;
    virtual_ip = 0;
    pending_join_room_id = 0;
    resume_room_id = 0;
    resume_peer_id = 0;
    auth_challenge = zero_challenge;
    resume_token = zero_token;
    udp_addr_known = false;
  }

  unfoldable pub on_logout : ℕ → ℕ → SignalServer → SignalServer
  unfolding close_data logout_lease update_client unbind_client_indexes release_peer_id send_client
      broadcast_room_list_push
  on_logout now fd s = elim (find fd s.clients) [
    | none ↦ s
    | some c ↦
        let s1 = close_data fd s in
        let (room_changed, s2) = logout_lease now c s1 in
        let s3 = update_client fd (λ d. record d { state = closing }) s2 in
        let s4 = unbind_client_indexes (record c { data_fd = none }) s3 in
        let s5 = if c.peer_id == 0 then s4 else release_peer_id c.peer_id s4 in
        let s6 = (send_client crypto fd msg_logout_ack [] s5).1 in
        let s7 = update_client fd logged_out s6 in
        if room_changed then broadcast_room_list_push crypto s7 else s7
  ]
