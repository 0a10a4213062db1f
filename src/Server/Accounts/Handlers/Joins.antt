-- ===== src/Server/Accounts/Handlers/Joins.antt =====
-- Joining a room, with and without its password (server/src/signal_server.cpp), keeps the account of
-- the queued bytes.
use vlan_connect.Prelude.{◌==◌, length, ℕ, refl, Bool, not, ◌||◌, Option, List, ◌++◌}
use vlan_connect.Prelude.Map.{find}
use vlan_connect.Room.Leases.{Room, is_full}
use vlan_connect.Room.Manager.{get_room}
use vlan_connect.ByteBuffer.{u8_bytes}
use vlan_connect.ByteBuffer.Parser.{p_u32}
use vlan_connect.Session.{logged_in, await_room_password}
use vlan_connect.Protocol.Constants.{msg_auth_challenge}
use vlan_connect.SecureFrame.Cipher.{Crypto}
use vlan_connect.Server.State.{ClientSession, SignalServer, update_client}
use vlan_connect.Server.Deliver.{error_rate_limited, error_room_password}
use vlan_connect.Server.Expiry.{cleanup_expired_leases}
use vlan_connect.Server.RoomHandlers.{
  auth_kdf_profile, waits_for_password, ask_password, join_found, on_join_room, back_to_lobby,
  check_password, on_auth_response,
}
use vlan_connect.Server.Accounts.{IsCounted, update_client-IsCounted}
use vlan_connect.Server.Accounts.Deliver.{
  if-IsCounted, option-IsCounted, send_client-IsCounted, send_error-IsCounted,
}
use vlan_connect.Server.Accounts.Rooms.{complete_join-IsCounted, cleanup_expired_leases-IsCounted}
use vlan_connect.Server.Accounts.Handlers.{kill_client-IsCounted}
use vlan_connect.Server.Accounts.Handlers.Rooms.{error-IsCounted}

module _ (crypto : Crypto) where
  ask_password-IsCounted :
      (random : Option (List ℕ)) (allowed : Bool) (fd room_id : ℕ) (room : Room) (s : SignalServer)
      → IsCounted s
      → IsCounted (ask_password crypto random allowed fd room_id room s)
  unfolding ask_password
  ask_password-IsCounted random allowed fd room_id room s v =
      if-IsCounted (not allowed)
        (send_error-IsCounted crypto fd "Room authentication rate limit exceeded" error_rate_limited
          s v)
        (option-IsCounted random _ _
          (error-IsCounted crypto fd "Secure random generation failed" _ (
            update_client-IsCounted fd
              (λ c. record c { pending_join_room_id = 0; state = logged_in }) s (λ c. refl)
              (λ c. refl) (λ c. refl) v))
          (λ challenge.
            let g : ClientSession → ClientSession = λ c. record c {
              pending_join_room_id = room_id;
              state = await_room_password;
              auth_challenge = challenge;
            } in
            send_client-IsCounted crypto fd msg_auth_challenge
              (u8_bytes auth_kdf_profile ++ (room.password_salt ++ challenge))
              (update_client fd g s)
              (update_client-IsCounted fd g s (λ c. refl) (λ c. refl) (λ c. refl) v)))

  join_found-IsCounted :
      (now : ℕ) (random : Option (List ℕ)) (allowed : Bool) (c : ClientSession) (room_id : ℕ)
      (s : SignalServer)
      → IsCounted s
      → IsCounted (join_found crypto now random allowed c room_id s)
  unfolding join_found
  join_found-IsCounted now random allowed c room_id s v =
      option-IsCounted (get_room room_id s.rooms) _ _
        (error-IsCounted crypto c.tcp_fd "Room not found" s v)
        (λ room. if-IsCounted (is_full room) (error-IsCounted crypto c.tcp_fd "Room is full" s v) (
          if-IsCounted (not (room.password_protected == 0))
            (ask_password-IsCounted random allowed c.tcp_fd room_id room s v)
            (complete_join-IsCounted crypto now random c room s v)))

  pub on_join_room-IsCounted :
      (now : ℕ) (random : Option (List ℕ)) (allowed : Bool) (fd : ℕ) (body : List ℕ)
      (s : SignalServer)
      → IsCounted s
      → IsCounted (on_join_room crypto now random allowed fd body s)
  unfolding on_join_room
  on_join_room-IsCounted now random allowed fd body s v =
      let v1 = cleanup_expired_leases-IsCounted crypto now s v in
      option-IsCounted (find fd s.clients) s _ v (λ c.
        if-IsCounted (c.peer_id == 0) (error-IsCounted crypto fd "Not logged in" s v) (
          if-IsCounted (not (c.room_id == 0)) (error-IsCounted crypto fd "Already in a room" s v) (
            option-IsCounted (p_u32 body) _ _ (kill_client-IsCounted fd _ v1)
              (λ p. join_found-IsCounted now random allowed c p.0 _ v1))))

  check_password-IsCounted :
      (now : ℕ) (random : Option (List ℕ)) (c : ClientSession) (room : Room) (body : List ℕ)
      (s : SignalServer)
      → IsCounted s
      → IsCounted (check_password crypto now random c room body s)
  unfolding check_password
  check_password-IsCounted now random c room body s v =
      let s1 = update_client c.tcp_fd (back_to_lobby crypto) s in
      let v1 =
        update_client-IsCounted c.tcp_fd (back_to_lobby crypto) s (λ d. refl) (λ d. refl)
          (λ d. refl) v in
      let expected = crypto.keyed_hash room.password_hash c.auth_challenge in
      if-IsCounted (not (length body == 32) || not (crypto.verify32 expected body))
        (send_error-IsCounted crypto c.tcp_fd "Invalid room password" error_room_password s1 v1)
        (if-IsCounted (is_full room) (error-IsCounted crypto c.tcp_fd "Room is full" s1 v1)
          (complete_join-IsCounted crypto now random c room s1 v1))

  pub on_auth_response-IsCounted :
      (now : ℕ) (random : Option (List ℕ)) (fd : ℕ) (body : List ℕ) (s : SignalServer)
      → IsCounted s
      → IsCounted (on_auth_response crypto now random fd body s)
  unfolding on_auth_response
  on_auth_response-IsCounted now random fd body s v =
      let s1 = cleanup_expired_leases crypto now s in
      let v1 = cleanup_expired_leases-IsCounted crypto now s v in
      option-IsCounted (find fd s.clients) s _ v (λ c.
        if-IsCounted (not (waits_for_password c.state) || c.pending_join_room_id == 0)
          (error-IsCounted crypto fd "Unexpected auth response" s v)
          (option-IsCounted (get_room c.pending_join_room_id s1.rooms) _ _
            (error-IsCounted crypto fd "Room not found" _ (
              update_client-IsCounted fd (back_to_lobby crypto) s1 (λ d. refl) (λ d. refl)
                (λ d. refl) v1))
            (λ room. check_password-IsCounted now random c room body s1 v1)))
