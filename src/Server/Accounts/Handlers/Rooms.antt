-- ===== src/Server/Accounts/Handlers/Rooms.antt =====
-- The handlers of rooms and leases (server/src/signal_server.cpp) keep the account of the queued
-- bytes.
use Prim.Native.String.{String}
use vlan_connect.Prelude.{ltb, leb, ◌==◌, length, ℕ, refl, Bool, not, ◌||◌, Option, some, List}
use vlan_connect.Prelude.Map.{find}
use vlan_connect.Room.Leases.{RoomLease, Room, add_lease}
use vlan_connect.Room.Manager.{RoomConfig, create_room, put_room, erase_room}
use vlan_connect.ByteBuffer.Parser.{p_u8, p_string}
use vlan_connect.Protocol.Constants.{max_players, msg_room_created}
use vlan_connect.Protocol.Names.{is_valid_room_name}
use vlan_connect.Protocol.Policy.{
  is_valid_room_mtu_value, RoomTrafficPolicy, make_default_tcp_policy, make_default_udp_policy,
}
use vlan_connect.SecureFrame.Cipher.{Crypto}
use vlan_connect.Server.State.{ClientSession, SignalServer, update_client}
use vlan_connect.Server.Deliver.{error_general, send_client, send_error}
use vlan_connect.Server.Rooms.{generate_lease_token, room_created_response, within_room}
use vlan_connect.Server.RoomHandlers.{
  parse_policies, parse_end, valid_triple, policy_of, open_room, make_room, create_read,
  create_with_policies, create_with_players, create_named, on_create_room,
}
use vlan_connect.Server.Accounts.{IsCounted, update_client-IsCounted}
use vlan_connect.Server.Accounts.Deliver.{
  if-IsCounted, option-IsCounted, send_client-IsCounted, send_error-IsCounted,
  broadcast_room_list_push-IsCounted,
}
use vlan_connect.Server.Accounts.Rooms.{put_rooms-IsCounted, rollback_new_membership-IsCounted}
use vlan_connect.Server.Accounts.Handlers.{kill_client-IsCounted}

module _ (crypto : Crypto) where
  pub error-IsCounted :
      (fd : ℕ) (text : String) (s : SignalServer)
      → IsCounted s
      → IsCounted (send_error crypto fd text error_general s)
  error-IsCounted fd text s v = send_error-IsCounted crypto fd text error_general s v

  open_room-IsCounted :
      (now fd : ℕ) (room : Room) (lease : RoomLease) (s : SignalServer)
      → IsCounted s
      → IsCounted (open_room crypto now fd room lease s)
  unfolding open_room
  open_room-IsCounted now fd room lease s v = option-IsCounted (find fd s.clients) s _ v (λ c.
      let entered = within_room room.id lease.virtual_ip lease.token in
      let s1 = update_client fd entered s in
      let v1 = update_client-IsCounted fd entered s (λ d. refl) (λ d. refl) (λ d. refl) v in
      let response = room_created_response lease.virtual_ip room lease.token in
      let v2 = send_client-IsCounted crypto fd msg_room_created response s1 v1 in
      if-IsCounted (send_client crypto fd msg_room_created response s1).0
        (broadcast_room_list_push-IsCounted crypto _ v2)
        (rollback_new_membership-IsCounted now c room.id _ v2))

  make_room-IsCounted :
      (now fd : ℕ) (c : ClientSession) (config : RoomConfig) (token : List ℕ) (s : SignalServer)
      → IsCounted s
      → IsCounted (make_room crypto now fd c config token s)
  unfolding make_room
  make_room-IsCounted now fd c config token s v =
      let (room, m) = create_room config s.rooms in
      option-IsCounted (add_lease c.peer_id c.name token room).0 _ _
        (error-IsCounted fd "Cannot allocate virtual IP" _
          (put_rooms-IsCounted (erase_room room.id m) s v))
        (λ lease.
          let room' = (add_lease c.peer_id c.name token room).1 in
          open_room-IsCounted now fd room' lease _
            (put_rooms-IsCounted (put_room room.id room' m) s v))

  create_read-IsCounted :
      (now fd : ℕ) (random : Option (List ℕ)) (c : ClientSession) (name : List ℕ) (players : ℕ)
      (tcp udp : RoomTrafficPolicy) (p : ℕ × (List ℕ × List ℕ) × ℕ) (s : SignalServer)
      → IsCounted s
      → IsCounted (create_read crypto now fd random c name players tcp udp p s)
  unfolding create_read
  create_read-IsCounted now fd random c name players tcp udp (protected, (salt, hash), mtu) s v =
      if-IsCounted (not (is_valid_room_mtu_value mtu)) (kill_client-IsCounted fd s v) (
        option-IsCounted (generate_lease_token random) _ _
          (error-IsCounted fd "Secure random generation failed" s v)
          (λ token.
            make_room-IsCounted now fd c
              (record {
                name = name;
                host = c.peer_id;
                max_players = players;
                tcp_policy = tcp;
                udp_policy = udp;
                mtu = mtu;
                password_protected = protected;
                password_hash = some hash;
                password_salt = some salt;
              })
              token s v))

  create_with_policies-IsCounted :
      (now fd : ℕ) (random : Option (List ℕ)) (c : ClientSession) (name : List ℕ) (players : ℕ)
      (p : ((ℕ × ℕ × ℕ) × (ℕ × ℕ × ℕ)) × List ℕ) (s : SignalServer)
      → IsCounted s
      → IsCounted (create_with_policies crypto now fd random c name players p s)
  unfolding create_with_policies
  create_with_policies-IsCounted now fd random c name players ((tcp, udp), body) s v =
      if-IsCounted (not (valid_triple tcp) || not (valid_triple udp))
        (error-IsCounted fd "Invalid traffic policy" s v)
        (option-IsCounted (parse_end body) _ _ (kill_client-IsCounted fd s v) (λ p.
          create_read-IsCounted now fd random c name players (policy_of tcp make_default_tcp_policy)
            (policy_of udp make_default_udp_policy) p.0 s v))

  create_with_players-IsCounted :
      (now fd : ℕ) (random : Option (List ℕ)) (c : ClientSession) (name : List ℕ) (p : ℕ × List ℕ)
      (s : SignalServer)
      → IsCounted s
      → IsCounted (create_with_players crypto now fd random c name p s)
  unfolding create_with_players
  create_with_players-IsCounted now fd random c name (players, rest) s v =
      if-IsCounted (ltb players 2 || ltb max_players players)
        (error-IsCounted fd "Invalid max players" s v)
        (if-IsCounted (ltb (length rest) 6) (error-IsCounted fd "Missing traffic policies" s v) (
          option-IsCounted (parse_policies rest) _ _ (kill_client-IsCounted fd s v)
            (λ p. create_with_policies-IsCounted now fd random c name players p s v)))

  create_named-IsCounted :
      (now fd : ℕ) (random : Option (List ℕ)) (c : ClientSession) (p : List ℕ × List ℕ)
      (s : SignalServer)
      → IsCounted s
      → IsCounted (create_named crypto now fd random c p s)
  unfolding create_named
  create_named-IsCounted now fd random c (name, body) s v =
      if-IsCounted (not (is_valid_room_name name)) (error-IsCounted fd "Invalid room name" s v) (
        option-IsCounted (p_u8 body) _ _ (kill_client-IsCounted fd s v)
          (λ p. create_with_players-IsCounted now fd random c name p s v))

  pub on_create_room-IsCounted :
      (now : ℕ) (random : Option (List ℕ)) (allowed : Bool) (fd : ℕ) (body : List ℕ)
      (s : SignalServer)
      → IsCounted s
      → IsCounted (on_create_room crypto now random allowed fd body s)
  unfolding on_create_room
  on_create_room-IsCounted now random allowed fd body s v =
      option-IsCounted (find fd s.clients) s _ v (λ c.
        if-IsCounted (c.peer_id == 0) (error-IsCounted fd "Not logged in" s v) (
          if-IsCounted (not (c.room_id == 0)) (error-IsCounted fd "Already in a room" s v) (
            if-IsCounted (not allowed) (error-IsCounted fd "Room creation rate limit exceeded" s v)
              (if-IsCounted (leb s.max_rooms (length s.rooms.rooms))
                (error-IsCounted fd "Room capacity reached" s v)
                (option-IsCounted (p_string body) _ _ (kill_client-IsCounted fd s v)
                  (λ p. create_named-IsCounted now fd random c p s v))))))
