-- ===== src/Server/Accounts/Handlers/Leases.antt =====
-- Taking up a lease and giving it up (server/src/signal_server.cpp) keep the account of the queued
-- bytes.
use vlan_connect.Prelude.{◌==◌, ℕ, refl, not, ◌&&◌, Option, none, some, List, []}
use vlan_connect.Prelude.Map.{find}
use vlan_connect.Room.Leases.{RoomLease, Room, mark_lease_online}
use vlan_connect.Room.Manager.{put_room}
use vlan_connect.ByteBuffer.{u32_bytes}
use vlan_connect.Session.{logged_in, closing}
use vlan_connect.Protocol.Constants.{msg_peer_left, msg_join_resp, msg_logout_ack, msg_peer_resumed}
use vlan_connect.SecureFrame.Cipher.{Crypto}
use vlan_connect.Server.State.{ClientSession, SignalServer, update_client}
use vlan_connect.Server.Index.{bind_peer_index, unbind_client_indexes}
use vlan_connect.Server.Deliver.{send_client}
use vlan_connect.Server.Rooms.{
  zero_token, validate_resume_lease, join_response, put_rooms, within_room, joined_bytes,
}
use vlan_connect.Server.Teardown.{is_resume_pending, close_data}
use vlan_connect.Server.Handlers.{parse_resume}
use vlan_connect.Server.LeaseHandlers.{
  fits_lease, fits_expired, lease_passes, give_up, announce_resume, complete_resume, resume_expired,
  agrees, resume_found, resume_read, on_resume_room, logout_lease, logged_out, on_logout,
}
use vlan_connect.Server.Accounts.{IsCounted, update_client-IsCounted}
use vlan_connect.Server.Accounts.Deliver.{
  if-IsCounted, if_result-IsCounted, option-IsCounted, send_client-IsCounted,
  broadcast_to_room-IsCounted, notify_relay_peers-IsCounted, broadcast_room_list_push-IsCounted,
}
use vlan_connect.Server.Accounts.Rooms.{put_rooms-IsCounted, release_peer_id-IsCounted}
use vlan_connect.Server.Accounts.Ending.{close_data-IsCounted, unbind_client_indexes-IsCounted}
use vlan_connect.Server.Accounts.Handlers.{kill_client-IsCounted, bind_peer_index-IsCounted}
use vlan_connect.Server.Accounts.Handlers.Rooms.{error-IsCounted}

module _ (crypto : Crypto) where
  give_up-IsCounted :
      (now room_id peer : ℕ) (s : SignalServer)
      → IsCounted s
      → IsCounted (give_up crypto now room_id peer s)
  unfolding give_up
  give_up-IsCounted now room_id peer s v =
      put_rooms-IsCounted _ _
        (broadcast_to_room-IsCounted crypto room_id msg_peer_left (u32_bytes peer) peer s v)

  announce_resume-IsCounted :
      (c : ClientSession) (room_id : ℕ) (lease : RoomLease) (s : SignalServer)
      → IsCounted s
      → IsCounted (announce_resume crypto c room_id lease s)
  unfolding announce_resume
  announce_resume-IsCounted c room_id lease s v =
      notify_relay_peers-IsCounted crypto (record c { room_id = room_id }) _
        (broadcast_to_room-IsCounted crypto room_id msg_peer_resumed
          (joined_bytes c.peer_id lease.virtual_ip lease.name) c.peer_id s v)

  complete_resume-IsCounted :
      (now : ℕ) (c : ClientSession) (room_id : ℕ) (room : Room) (lease : RoomLease)
      (s : SignalServer)
      → IsCounted s
      → IsCounted (complete_resume crypto now c room_id room lease s)
  unfolding complete_resume
  complete_resume-IsCounted now c room_id room lease s v =
      let room' = (mark_lease_online lease.peer_id room).1 in
      let s1 = put_rooms (put_room room_id room' s.rooms) s in
      let v1 = put_rooms-IsCounted (put_room room_id room' s.rooms) s v in
      let g : ClientSession → ClientSession =
        λ d. record (within_room room_id lease.virtual_ip lease.token d) { name = lease.name } in
      let s2 = update_client c.tcp_fd g s1 in
      let v2 = update_client-IsCounted c.tcp_fd g s1 (λ d. refl) (λ d. refl) (λ d. refl) v1 in
      let v3 = bind_peer_index-IsCounted c c.peer_id s2 v2 in
      let s3 = (bind_peer_index c c.peer_id s2).1 in
      let response = join_response lease.virtual_ip room' lease.token in
      let v4 = send_client-IsCounted crypto c.tcp_fd msg_join_resp response s3 v3 in
      if-IsCounted (not (bind_peer_index c c.peer_id s2).0) (kill_client-IsCounted c.tcp_fd _ v3) (
        if-IsCounted (send_client crypto c.tcp_fd msg_join_resp response s3).0
          (announce_resume-IsCounted c room_id lease _ v4)
          (kill_client-IsCounted c.tcp_fd _ (put_rooms-IsCounted _ _ v4)))

  resume_expired-IsCounted :
      (now fd room_id peer : ℕ) (token : List ℕ) (s : SignalServer)
      → IsCounted s
      → IsCounted (resume_expired crypto now fd room_id peer token s)
  unfolding resume_expired
  resume_expired-IsCounted now fd room_id peer token s v =
      error-IsCounted crypto fd "Resume expired" _ (
        update_client-IsCounted fd
          (λ c. record c {
            state = logged_in;
            resume_room_id = 0;
            resume_peer_id = 0;
            resume_token = zero_token;
          })
          _ (λ c. refl) (λ c. refl) (λ c. refl)
          (if-IsCounted (lease_passes room_id peer (fits_expired now token) s.rooms)
            (broadcast_room_list_push-IsCounted crypto _ (give_up-IsCounted now room_id peer s v))
            v))

  resume_found-IsCounted :
      (now : ℕ) (c : ClientSession) (room_id peer : ℕ) (token : List ℕ)
      (o : Option (Room × RoomLease)) (s : SignalServer)
      → IsCounted s
      → IsCounted (resume_found crypto now c room_id peer token o s)
  unfolding resume_found
  resume_found-IsCounted now c room_id peer token none s v =
      resume_expired-IsCounted now c.tcp_fd room_id peer token s v
  resume_found-IsCounted now c room_id peer token (some (room, lease)) s v =
      complete_resume-IsCounted now c room_id room lease s v

  resume_read-IsCounted :
      (now : ℕ) (c : ClientSession) (o : Option (ℕ × ℕ × List ℕ)) (s : SignalServer)
      → IsCounted s
      → IsCounted (resume_read crypto now c o s)
  unfolding resume_read
  resume_read-IsCounted now c none s v = kill_client-IsCounted c.tcp_fd s v
  resume_read-IsCounted now c (some (room_id, peer, token)) s v =
      if-IsCounted (not (agrees crypto room_id peer token c))
        (error-IsCounted crypto c.tcp_fd "Resume rejected" s v)
        (resume_found-IsCounted now c room_id peer token
          (validate_resume_lease now room_id peer token s) s v)

  pub on_resume_room-IsCounted :
      (now fd : ℕ) (body : List ℕ) (s : SignalServer)
      → IsCounted s
      → IsCounted (on_resume_room crypto now fd body s)
  unfolding on_resume_room
  on_resume_room-IsCounted now fd body s v = option-IsCounted (find fd s.clients) s _ v (λ c.
      if-IsCounted (c.peer_id == 0) (error-IsCounted crypto fd "Not logged in" s v) (
        option-IsCounted (parse_resume 1 body) _ _ (kill_client-IsCounted fd s v)
          (λ p. resume_read-IsCounted now c p.0 s v)))

  logout_lease-IsCounted :
      (now : ℕ) (c : ClientSession) (s : SignalServer)
      → IsCounted s
      → IsCounted (logout_lease crypto now c s).1
  unfolding logout_lease
  logout_lease-IsCounted now c s v =
      if_result-IsCounted (not (c.room_id == 0) && not (c.peer_id == 0)) _ _
        (give_up-IsCounted now c.room_id c.peer_id s v)
        (if_result-IsCounted
          (is_resume_pending c.state
            && not (c.resume_room_id == 0)
            && not (c.resume_peer_id == 0)
            && lease_passes c.resume_room_id c.resume_peer_id (fits_lease c.resume_token) s.rooms)
          _ _ (give_up-IsCounted now c.resume_room_id c.resume_peer_id s v) v)

  pub on_logout-IsCounted :
      (now fd : ℕ) (s : SignalServer) → IsCounted s → IsCounted (on_logout crypto now fd s)
  unfolding on_logout
  on_logout-IsCounted now fd s v = option-IsCounted (find fd s.clients) s _ v (λ c.
      let s1 = close_data fd s in
      let (changed, s2) = logout_lease crypto now c s1 in
      let v2 = logout_lease-IsCounted now c s1 (close_data-IsCounted fd s v) in
      let g : ClientSession → ClientSession = λ d. record d { state = closing } in
      let v3 = update_client-IsCounted fd g s2 (λ d. refl) (λ d. refl) (λ d. refl) v2 in
      let s4 = unbind_client_indexes (record c { data_fd = none }) (update_client fd g s2) in
      let v4 =
        unbind_client_indexes-IsCounted (record c { data_fd = none }) (update_client fd g s2) v3 in
      let v5 = if-IsCounted (c.peer_id == 0) v4 (release_peer_id-IsCounted c.peer_id s4 v4) in
      let v6 = send_client-IsCounted crypto fd msg_logout_ack [] _ v5 in
      let v7 =
        update_client-IsCounted fd (logged_out crypto) _ (λ d. refl) (λ d. refl) (λ d. refl) v6 in
      if-IsCounted changed (broadcast_room_list_push-IsCounted crypto _ v7) v7)
