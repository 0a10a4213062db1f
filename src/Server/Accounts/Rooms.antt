-- ===== src/Server/Accounts/Rooms.antt =====
-- Membership and leases (server/src/signal_server.cpp) keep the account of the queued bytes.
use vlan_connect.Prelude.{
  ◌==◌, ℕ, refl, Bool, true, false, not, ◌||◌, Option, none, some, List, [], ◌∷◌, ◌++◌, map,
}
use vlan_connect.Prelude.Map.{find}
use vlan_connect.Room.Leases.{RoomLease, Room, is_some, add_lease, is_empty}
use vlan_connect.Room.Manager.{RoomManager, get_room, put_room}
use vlan_connect.Protocol.Constants.{msg_peer_joined, msg_peer_left, msg_join_resp}
use vlan_connect.SecureFrame.Cipher.{Crypto}
use vlan_connect.Server.State.{ClientSession, SignalServer, update_client}
use vlan_connect.Server.Index.{
  find_client_owner_by_peer_id, find_client_by_peer_id, release_peer_id,
}
use vlan_connect.Server.Deliver.{error_general, send_client, broadcast_to_room}
use vlan_connect.Server.Rooms.{
  generate_lease_token, is_expired, join_response, put_rooms, without_room, within_room, dead,
  rollback_new_membership, mark_session_offline, announce_join, enter_room, complete_join,
  on_leave_room,
}
use vlan_connect.Server.Expiry.{
  is_live, corrected, is_corrected, set_leases, ensure_host_at, expel, expire_loop, expire_room,
  expire_rooms, erase_rooms, cleanup_expired_leases,
}
use vlan_connect.Server.Accounts.{IsCounted, same-IsCounted, update_client-IsCounted}
use vlan_connect.Server.Accounts.Deliver.{
  if-IsCounted, if_result-IsCounted, option-IsCounted, find_client_owner_by_peer_id-IsCounted,
  find_client_by_peer_id-IsCounted, send_client-IsCounted, send_error-IsCounted,
  broadcast_to_room-IsCounted, notify_relay_peers-IsCounted, broadcast_room_list_push-IsCounted,
}
use vlan_connect.ByteBuffer.{u32_bytes}

pub put_rooms-IsCounted :
    (m : RoomManager) (s : SignalServer) → IsCounted s → IsCounted (put_rooms m s)
unfolding put_rooms
put_rooms-IsCounted m s v = same-IsCounted s _ refl refl refl v

pub release_peer_id-IsCounted :
    (peer : ℕ) (s : SignalServer) → IsCounted s → IsCounted (release_peer_id peer s)
unfolding release_peer_id
release_peer_id-IsCounted peer s v =
    let (found, s') = find_client_owner_by_peer_id peer s in
    let v' = find_client_owner_by_peer_id-IsCounted peer s v in
    if-IsCounted (peer == 0) v
      (if-IsCounted (is_some found) v' (same-IsCounted s' _ refl refl refl v'))

pub rollback_new_membership-IsCounted :
    (now : ℕ) (c : ClientSession) (room_id : ℕ) (s : SignalServer)
    → IsCounted s
    → IsCounted (rollback_new_membership now c room_id s)
unfolding rollback_new_membership
rollback_new_membership-IsCounted now c room_id s v =
    update_client-IsCounted c.tcp_fd (λ d. dead (without_room d)) _ (λ d. refl) (λ d. refl)
      (λ d. refl) (put_rooms-IsCounted _ s v)

pub mark_session_offline-IsCounted :
    (now : ℕ) (c : ClientSession) (s : SignalServer)
    → IsCounted s
    → IsCounted (mark_session_offline now c s)
unfolding mark_session_offline
mark_session_offline-IsCounted now c s v = if-IsCounted (c.room_id == 0) v (
    update_client-IsCounted c.tcp_fd (λ d. record d { room_id = 0; virtual_ip = 0 }) _ (λ d. refl)
      (λ d. refl) (λ d. refl) (put_rooms-IsCounted _ s v))

module _ (crypto : Crypto) where
  pub announce_join-IsCounted :
      (c : ClientSession) (room_id ip : ℕ) (s : SignalServer)
      → IsCounted s
      → IsCounted (announce_join crypto c room_id ip s)
  unfolding announce_join
  announce_join-IsCounted c room_id ip s v =
      notify_relay_peers-IsCounted crypto (record c { room_id = room_id }) _
        (broadcast_room_list_push-IsCounted crypto _
          (broadcast_to_room-IsCounted crypto room_id msg_peer_joined _ c.peer_id s v))

  enter_room-IsCounted :
      (now : ℕ) (c : ClientSession) (room : Room) (lease : RoomLease) (s : SignalServer)
      → IsCounted s
      → IsCounted (enter_room crypto now c room lease s)
  unfolding enter_room
  enter_room-IsCounted now c room lease s v =
      let v1 = put_rooms-IsCounted (put_room room.id room s.rooms) s v in
      let v2 =
        update_client-IsCounted c.tcp_fd (within_room room.id lease.virtual_ip lease.token) _
          (λ d. refl) (λ d. refl) (λ d. refl) v1 in
      let v3 = send_client-IsCounted crypto c.tcp_fd msg_join_resp _ _ v2 in
      let s2 =
        update_client c.tcp_fd (within_room room.id lease.virtual_ip lease.token)
          (put_rooms (put_room room.id room s.rooms) s) in
      let sent_msg =
        send_client crypto c.tcp_fd msg_join_resp (join_response lease.virtual_ip room lease.token)
          s2 in
      if-IsCounted sent_msg.0 (announce_join-IsCounted c room.id lease.virtual_ip _ v3)
        (rollback_new_membership-IsCounted now c room.id _ v3)

  pub complete_join-IsCounted :
      (now : ℕ) (random : Option (List ℕ)) (c : ClientSession) (room : Room) (s : SignalServer)
      → IsCounted s
      → IsCounted (complete_join crypto now random c room s)
  unfolding complete_join
  complete_join-IsCounted now random c room s v =
      option-IsCounted (generate_lease_token random) _ _
        (send_error-IsCounted crypto c.tcp_fd "Secure random generation failed" error_general s v)
        (λ token.
          option-IsCounted (add_lease c.peer_id c.name token room).0 _ _
            (send_error-IsCounted crypto c.tcp_fd "Cannot join room" error_general s v)
            (λ lease.
              enter_room-IsCounted now c (add_lease c.peer_id c.name token room).1 lease s v))

  pub on_leave_room-IsCounted :
      (now fd : ℕ) (s : SignalServer) → IsCounted s → IsCounted (on_leave_room crypto now fd s)
  unfolding on_leave_room
  on_leave_room-IsCounted now fd s v = option-IsCounted (find fd s.clients) s _ v (λ c.
      if-IsCounted (c.room_id == 0) v (
        broadcast_room_list_push-IsCounted crypto _ (
          update_client-IsCounted fd without_room _ (λ d. refl) (λ d. refl) (λ d. refl)
            (put_rooms-IsCounted _ _
              (broadcast_to_room-IsCounted crypto c.room_id msg_peer_left _ c.peer_id s v)))))

  module _ (now room_id : ℕ) where
    expel-IsCounted :
        (front back : List RoomLease) (l : RoomLease) (s : SignalServer)
        → IsCounted s
        → IsCounted (expel crypto now room_id front back l s)
    unfolding expel
    expel-IsCounted front back l s v =
        let s1 = broadcast_to_room crypto room_id msg_peer_left (u32_bytes l.peer_id) l.peer_id s in
        let v1 = broadcast_to_room-IsCounted crypto room_id msg_peer_left _ l.peer_id s v in
        let s2 = put_rooms (set_leases room_id (front ++ back) s1.rooms) s1 in
        let v2 = put_rooms-IsCounted (set_leases room_id (front ++ back) s1.rooms) s1 v1 in
        let v3 = find_client_by_peer_id-IsCounted l.peer_id s2 v2 in
        if-IsCounted (is_some (find_client_by_peer_id l.peer_id s2).0) v3
          (release_peer_id-IsCounted l.peer_id _ v3)

    expire_loop-IsCounted :
        (front back : List RoomLease) (changed : Bool) (s : SignalServer)
        → IsCounted s
        → IsCounted (expire_loop crypto now room_id front back changed s).1
    unfolding expire_loop
    expire_loop-IsCounted front [] changed s v = v
    expire_loop-IsCounted front (l ∷ back) changed s v =
        let (found, s1) = find_client_by_peer_id l.peer_id s in
        let v1 = find_client_by_peer_id-IsCounted l.peer_id s v in
        let live = is_live room_id found in
        let l' = corrected now live l in
        let rooms = set_leases room_id (front ++ (l' ∷ back)) s1.rooms in
        let v2 = put_rooms-IsCounted rooms s1 v1 in
        let s2 = put_rooms rooms s1 in
        if_result-IsCounted (is_expired now l') _ _
          (expire_loop-IsCounted front back true (expel crypto now room_id front back l' s2)
            (expel-IsCounted front back l' s2 v2))
          (expire_loop-IsCounted (front ++ l' ∷ []) back (changed || is_corrected live l) s2 v2)

  expire_room-IsCounted :
      (now room_id : ℕ) (changed : Bool) (s : SignalServer)
      → IsCounted s
      → IsCounted (expire_room crypto now room_id changed s).1
  unfolding expire_room
  expire_room-IsCounted now room_id changed s v = at (get_room room_id s.rooms)
    where
      at :
          (o : Option Room)
          → IsCounted
              (elim o as (λ o'. Bool × SignalServer) [
                | none ↦ (changed, s)
                | some room ↦
                    let (changed', s') = expire_loop crypto now room_id [] room.leases changed s in
                    (changed', put_rooms (ensure_host_at room_id s'.rooms) s')
              ]).1
      at none = v
      at (some room) =
          put_rooms-IsCounted _ _ (expire_loop-IsCounted now room_id [] room.leases changed s v)

  expire_rooms-IsCounted :
      (now : ℕ) (ids : List ℕ) (changed : Bool) (empty_rooms : List ℕ) (s : SignalServer)
      → IsCounted s
      → IsCounted (expire_rooms crypto now ids changed empty_rooms s).2
  unfolding expire_rooms
  expire_rooms-IsCounted now [] changed empty_rooms s v = v
  expire_rooms-IsCounted now (id ∷ ids) changed empty_rooms s v =
      expire_rooms-IsCounted now ids _ _ _ (expire_room-IsCounted now id changed s v)

  pub cleanup_expired_leases-IsCounted :
      (now : ℕ) (s : SignalServer) → IsCounted s → IsCounted (cleanup_expired_leases crypto now s)
  unfolding cleanup_expired_leases
  cleanup_expired_leases-IsCounted now s v =
      let (changed, empty_rooms, s') =
        expire_rooms crypto now (map (λ p. p.0) s.rooms.rooms) false [] s in
      let v' =
        put_rooms-IsCounted (erase_rooms empty_rooms s'.rooms) s'
          (expire_rooms-IsCounted now (map (λ p. p.0) s.rooms.rooms) false [] s v) in
      if-IsCounted (changed || not (is_empty empty_rooms))
        (broadcast_room_list_push-IsCounted crypto _ v') v'
