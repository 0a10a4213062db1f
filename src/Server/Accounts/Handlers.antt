-- ===== src/Server/Accounts/Handlers.antt =====
-- The handlers of the clients' messages (server/src/signal_server.cpp) keep the account of the
-- queued bytes.
pub mod Rooms
pub mod Messages
pub mod Joins
pub mod Leases
use vlan_connect.Prelude.{
  ◌==◌, if◌then◌else◌, ℕ, refl, false, not, ◌&&◌, Option, none, some, List, [], ◌∷◌,
}
use vlan_connect.Prelude.Map.{find}
use vlan_connect.Room.Leases.{RoomLease, Room, is_some, is_empty}
use vlan_connect.Protocol.Constants.{protocol_version, msg_login_resp}
use vlan_connect.Protocol.Names.{is_valid_player_name}
use vlan_connect.SecureFrame.Cipher.{Crypto}
use vlan_connect.Session.{logged_in, resume_pending, closing}
use vlan_connect.Server.State.{ClientSession, SignalServer, update_client}
use vlan_connect.Server.Index.{
  find_client_owner_by_peer_id, taken_by_other, bind_peer_index, take_peer_id, allocate_peer_id,
}
use vlan_connect.Server.Deliver.{error_general, error_version_mismatch}
use vlan_connect.Server.Rooms.{zero_token, validate_resume_lease, put_rooms, offline_member, dead}
use vlan_connect.Server.Teardown.{takeover}
use vlan_connect.Server.Handlers.{
  kill_client, login_response, name_in_use, take_over, mismatch, parse_login_body, is_await_login,
  resume_login, fresh_login, login_of, on_login,
}
use vlan_connect.Server.Accounts.{IsCounted, same-IsCounted, update_client-IsCounted}
use vlan_connect.Server.Accounts.Deliver.{
  if-IsCounted, if_result-IsCounted, option-IsCounted, find_client_owner_by_peer_id-IsCounted,
  send_client-IsCounted, send_error-IsCounted,
}
use vlan_connect.Server.Accounts.Rooms.{put_rooms-IsCounted, release_peer_id-IsCounted}
use vlan_connect.Server.Accounts.Ending.{destroy_client-IsCounted}

pub kill_client-IsCounted : (fd : ℕ) (s : SignalServer) → IsCounted s → IsCounted (kill_client fd s)
kill_client-IsCounted fd s v =
    update_client-IsCounted fd dead s (λ c. refl) (λ c. refl) (λ c. refl) v

pub bind_peer_index-IsCounted :
    (c : ClientSession) (peer : ℕ) (s : SignalServer)
    → IsCounted s
    → IsCounted (bind_peer_index c peer s).1
unfolding bind_peer_index
bind_peer_index-IsCounted c peer s v =
    let other = taken_by_other c.tcp_fd (find peer s.peer_map) in
    let (owner_found, pruned_s) = find_client_owner_by_peer_id peer s in
    let v' = if-IsCounted other (find_client_owner_by_peer_id-IsCounted peer s v) v in
    let s' = if other then pruned_s else s in
    if_result-IsCounted (peer == 0) (false, s) _ v
      (if_result-IsCounted (other && is_some owner_found) (false, s') _ v'
        (same-IsCounted s' _ refl refl refl v'))

allocate_peer_id-IsCounted : (s : SignalServer) → IsCounted s → IsCounted (allocate_peer_id s).1
unfolding allocate_peer_id
allocate_peer_id-IsCounted s v = taken s.free_peer_ids
  where
    taken : (free : List ℕ) → IsCounted (take_peer_id free s).1
    taken [] = same-IsCounted s _ refl refl refl v
    taken (peer ∷ rest) = same-IsCounted s _ refl refl refl v

take_over-IsCounted :
    (now fd : ℕ) (old : Option ClientSession) (s : SignalServer)
    → IsCounted s
    → IsCounted (take_over now fd old s)
unfolding take_over
take_over-IsCounted now fd none s v = v
take_over-IsCounted now fd (some c) s v =
    if-IsCounted (c.tcp_fd == fd) v (destroy_client-IsCounted now c.tcp_fd takeover s v)

module _ (crypto : Crypto) where
  resume_login-IsCounted :
      (now fd : ℕ) (name : List ℕ) (room_id peer : ℕ) (lease : RoomLease) (token : List ℕ)
      (s : SignalServer)
      → IsCounted s
      → IsCounted (resume_login crypto now fd name room_id peer lease token s)
  unfolding resume_login
  resume_login-IsCounted now fd name room_id peer lease token s v =
      let (old, s1) = find_client_owner_by_peer_id peer s in
      let v1 = find_client_owner_by_peer_id-IsCounted peer s v in
      let s2 = take_over now fd old s1 in
      let v2 = take_over-IsCounted now fd old s1 v1 in
      let g : ClientSession → ClientSession = λ c. record c {
        name = if is_empty lease.name then name else lease.name;
        peer_id = peer;
        resume_room_id = room_id;
        resume_peer_id = peer;
        resume_token = token;
        state = resume_pending;
      } in
      let v3 = update_client-IsCounted fd g s2 (λ c. refl) (λ c. refl) (λ c. refl) v2 in
      let s3 = update_client fd g s2 in
      let s4 = put_rooms (offline_member now room_id peer s3.rooms) s3 in
      let v4 = put_rooms-IsCounted (offline_member now room_id peer s3.rooms) s3 v3 in
      option-IsCounted (find fd s4.clients) s4 _ v4 (λ c.
        let v5 = bind_peer_index-IsCounted c peer s4 v4 in
        if-IsCounted (bind_peer_index c peer s4).0
          (send_client-IsCounted crypto fd msg_login_resp (login_response peer 1) _ v5)
          (kill_client-IsCounted fd _ v5))

  fresh_login-IsCounted :
      (fd : ℕ) (name : List ℕ) (s : SignalServer)
      → IsCounted s
      → IsCounted (fresh_login crypto fd name s)
  unfolding fresh_login
  fresh_login-IsCounted fd name s v =
      let (peer, s1) = allocate_peer_id s in
      let v1 = allocate_peer_id-IsCounted s v in
      let g : ClientSession → ClientSession = λ c. record c {
        name = name;
        peer_id = peer;
        resume_room_id = 0;
        resume_peer_id = 0;
        resume_token = zero_token;
        state = logged_in;
      } in
      let s2 = update_client fd g s1 in
      let v2 = update_client-IsCounted fd g s1 (λ c. refl) (λ c. refl) (λ c. refl) v1 in
      if-IsCounted (name_in_use fd name s.clients)
        (send_error-IsCounted crypto fd "Name already in use" error_general s v)
        (option-IsCounted (find fd s2.clients) s2 _ v2 (λ c.
          let v3 = bind_peer_index-IsCounted c peer s2 v2 in
          if-IsCounted (bind_peer_index c peer s2).0
            (send_client-IsCounted crypto fd msg_login_resp (login_response peer 0) _ v3)
            (kill_client-IsCounted fd _ (
              release_peer_id-IsCounted peer _ (
                update_client-IsCounted fd (λ d. record d { peer_id = 0 }) _ (λ d. refl) (λ d. refl)
                  (λ d. refl) v3)))))

  login_of-IsCounted :
      (now fd : ℕ) (name : List ℕ) (version : ℕ) (resume : Option (ℕ × ℕ × List ℕ))
      (s : SignalServer)
      → IsCounted s
      → IsCounted (login_of crypto now fd name version resume s)
  unfolding login_of
  login_of-IsCounted now fd name version resume s v =
      if-IsCounted (not (version == protocol_version))
        (update_client-IsCounted fd (λ c. record c { state = closing }) _ (λ c. refl) (λ c. refl)
          (λ c. refl) (send_error-IsCounted crypto fd mismatch error_version_mismatch s v))
        (if-IsCounted (not (is_valid_player_name name))
          (send_error-IsCounted crypto fd "Invalid player name" error_general s v) (resumed resume))
    where
      resumed :
          (o : Option (ℕ × ℕ × List ℕ))
          → IsCounted (elim o as (λ o'. SignalServer) [
            | none ↦ fresh_login crypto fd name s
            | some (room_id, peer, token) ↦ elim (validate_resume_lease now room_id peer token s) [
              | none ↦ fresh_login crypto fd name s
              | some (room, lease) ↦ resume_login crypto now fd name room_id peer lease token s
            ]
          ])
      resumed none = fresh_login-IsCounted fd name s v
      resumed (some (room_id, peer, token)) =
          checked (validate_resume_lease now room_id peer token s)
        where
          checked :
              (o : Option (Room × RoomLease))
              → IsCounted (elim o as (λ o'. SignalServer) [
                | none ↦ fresh_login crypto fd name s
                | some (room, lease) ↦ resume_login crypto now fd name room_id peer lease token s
              ])
          checked none = fresh_login-IsCounted fd name s v
          checked (some (room, lease)) =
              resume_login-IsCounted now fd name room_id peer lease token s v

  pub on_login-IsCounted :
      (now fd : ℕ) (body : List ℕ) (s : SignalServer)
      → IsCounted s
      → IsCounted (on_login crypto now fd body s)
  unfolding on_login
  on_login-IsCounted now fd body s v = option-IsCounted (find fd s.clients) s _ v (λ c.
      if-IsCounted (is_await_login c.state) (parsed (parse_login_body body))
        (kill_client-IsCounted fd s v))
    where
      parsed :
          (o : Option ((List ℕ × ℕ × Option (ℕ × ℕ × List ℕ)) × List ℕ))
          → IsCounted (elim o as (λ o'. SignalServer) [
            | none ↦ kill_client fd s
            | some ((name, version, resume), rest) ↦ login_of crypto now fd name version resume s
          ])
      parsed none = kill_client-IsCounted fd s v
      parsed (some ((name, version, resume), rest)) =
          login_of-IsCounted now fd name version resume s v
