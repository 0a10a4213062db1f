-- ===== src/Server/Expiry.antt =====
-- SignalServer::cleanupExpiredLeases (server/src/signal_server.cpp).
use vlan_connect.Prelude.{
  ◌==◌, if◌then◌else◌, ℕ, Bool, true, false, not, ◌&&◌, ◌||◌, Option, none, some, List, [], ◌∷◌,
  ◌++◌, map,
}
use vlan_connect.Room.Leases.{RoomLease, is_some, is_empty, offline, back_online}
use vlan_connect.Room.Manager.{RoomManager, get_room, put_room, ensure_room_host, erase_room}
use vlan_connect.ByteBuffer.{u32_bytes}
use vlan_connect.Session.{SessionState, in_room}
use vlan_connect.Protocol.Constants.{msg_peer_left}
use vlan_connect.SecureFrame.Cipher.{Crypto}
use vlan_connect.Server.State.{ClientSession, SignalServer}
use vlan_connect.Server.Index.{find_client_by_peer_id, release_peer_id}
use vlan_connect.Server.Deliver.{broadcast_to_room}
use vlan_connect.Server.RoomList.{broadcast_room_list_push}
use vlan_connect.Server.Rooms.{is_expired, put_rooms}

abbrev pub is_in_room : SessionState → Bool
is_in_room in_room = true
is_in_room _ = false

-- Whether the session found for a lease is in the lease's room.
abbrev pub is_live : ℕ → Option ClientSession → Bool
is_live room_id none = false
is_live room_id (some c) = c.room_id == room_id && is_in_room c.state

-- The three corrections of a lease, by whether its member has a live session.
unfoldable pub corrected : ℕ → Bool → RoomLease → RoomLease
corrected now live l =
    if live && not l.online
    then back_online l
    else if l.online && not live
    then offline now l
    else if not l.online && l.expires_at == 0
    then offline now l
    else l

unfoldable pub is_corrected : Bool → RoomLease → Bool
is_corrected live l =
    (live && not l.online) || (l.online && not live) || (not l.online && l.expires_at == 0)

abbrev pub set_leases : ℕ → List RoomLease → RoomManager → RoomManager
set_leases room_id leases m = elim (get_room room_id m) [
  | none ↦ m
  | some room ↦ put_room room_id (record room { leases = leases }) m
]

abbrev pub ensure_host_at : ℕ → RoomManager → RoomManager
ensure_host_at room_id m = ensure_room_host room_id m

module _ (crypto : Crypto) (now room_id : ℕ) where
  -- A lease that is taken out: the members are told while it still stands in the list.
  unfoldable pub expel : List RoomLease → List RoomLease → RoomLease → SignalServer → SignalServer
  unfolding broadcast_to_room find_client_by_peer_id release_peer_id put_rooms
  expel front back l s =
      let s1 = broadcast_to_room crypto room_id msg_peer_left (u32_bytes l.peer_id) l.peer_id s in
      let s2 = put_rooms (set_leases room_id (front ++ back) s1.rooms) s1 in
      let (found, s3) = find_client_by_peer_id l.peer_id s2 in
      if is_some found then s3 else release_peer_id l.peer_id s3

  -- `for (i = 0; i < leases.size(); )`: the leases before `i`, and those from `i` on.
  unfoldable pub expire_loop :
      List RoomLease → List RoomLease → Bool → SignalServer → Bool × SignalServer
  unfolding expel corrected is_corrected find_client_by_peer_id put_rooms
  expire_loop front [] changed s = (changed, s)
  expire_loop front (l ∷ back) changed s =
      let (found, s1) = find_client_by_peer_id l.peer_id s in
      let live = is_live room_id found in
      let l' = corrected now live l in
      let s2 = put_rooms (set_leases room_id (front ++ (l' ∷ back)) s1.rooms) s1 in
      let gone = expire_loop front back true (expel front back l' s2) in
      let kept = expire_loop (front ++ l' ∷ []) back (changed || is_corrected live l) s2 in
      if is_expired now l' then gone else kept

unfoldable pub has_no_lease : ℕ → RoomManager → Bool
has_no_lease room_id m = elim (get_room room_id m) [
  | none ↦ false
  | some room ↦ is_empty room.leases
]

module _ (crypto : Crypto) (now : ℕ) where
  unfoldable pub expire_room : ℕ → Bool → SignalServer → Bool × SignalServer
  unfolding expire_loop put_rooms
  expire_room room_id changed s = elim (get_room room_id s.rooms) [
    | none ↦ (changed, s)
    | some room ↦
        let (changed', s') = expire_loop crypto now room_id [] room.leases changed s in
        (changed', put_rooms (ensure_host_at room_id s'.rooms) s')
  ]

  -- The rooms one after the other, and the numbers of those left empty.
  unfoldable pub expire_rooms : List ℕ → Bool → List ℕ → SignalServer → Bool × List ℕ × SignalServer
  unfolding expire_room has_no_lease
  expire_rooms [] changed empty_rooms s = (changed, empty_rooms, s)
  expire_rooms (id ∷ ids) changed empty_rooms s =
      let (changed', s') = expire_room id changed s in
      expire_rooms ids changed'
        (if has_no_lease id s'.rooms then empty_rooms ++ id ∷ [] else empty_rooms) s'

unfoldable pub erase_rooms : List ℕ → RoomManager → RoomManager
erase_rooms [] m = m
erase_rooms (id ∷ ids) m = erase_rooms ids (erase_room id m)

unfoldable pub cleanup_expired_leases : Crypto → ℕ → SignalServer → SignalServer
unfolding expire_rooms erase_rooms put_rooms broadcast_room_list_push
cleanup_expired_leases crypto now s =
    let (changed, empty_rooms, s') =
      expire_rooms crypto now (map (λ p. p.0) s.rooms.rooms) false [] s in
    let s'' = put_rooms (erase_rooms empty_rooms s'.rooms) s' in
    if changed || not (is_empty empty_rooms) then broadcast_room_list_push crypto s'' else s''
