-- ===== src/Server/Accounts/Handlers/Messages.antt =====
-- The messages within a room and the lists (server/src/signal_server.cpp) keep the account of the
-- queued bytes.
use vlan_connect.Prelude.{◌==◌, ℕ, not, ◌&&◌, ◌||◌, List, []}
use vlan_connect.Prelude.Map.{find}
use vlan_connect.Room.Leases.{is_some}
use vlan_connect.ByteBuffer.Parser.{p_u32}
use vlan_connect.Protocol.Constants.{msg_tcp_relay_data, msg_pong}
use vlan_connect.Protocol.Traffic.{traffic_tcp, traffic_udp, traffic_value}
use vlan_connect.SecureFrame.Cipher.{Crypto}
use vlan_connect.Server.State.{ClientSession, SignalServer}
use vlan_connect.Server.Index.{find_client_by_peer_id}
use vlan_connect.Server.Deliver.{send_data}
use vlan_connect.Server.Handlers.{
  parse_relay, same_room, relay_body, on_list_rooms, on_ping, request_of, on_request_relay, forward,
  relay_to, relay_read, on_tcp_relay_data,
}
use vlan_connect.Server.Accounts.{IsCounted}
use vlan_connect.Server.Accounts.Deliver.{
  if-IsCounted, option-IsCounted, find_client_by_peer_id-IsCounted, send_client-IsCounted,
  send_data-IsCounted, send_relay_ready-IsCounted, send_pages-IsCounted,
}
use vlan_connect.Server.Accounts.Rooms.{cleanup_expired_leases-IsCounted}
use vlan_connect.Server.Accounts.Handlers.{kill_client-IsCounted}
use vlan_connect.Server.RoomList.{collect_room_list_state, build_room_list_pages}
use vlan_connect.Server.Expiry.{cleanup_expired_leases}

module _ (crypto : Crypto) where
  pub on_list_rooms-IsCounted :
      (now fd : ℕ) (s : SignalServer) → IsCounted s → IsCounted (on_list_rooms crypto now fd s)
  unfolding on_list_rooms
  on_list_rooms-IsCounted now fd s v =
      let s1 = cleanup_expired_leases crypto now s in
      send_pages-IsCounted crypto fd
        (build_room_list_pages s1.room_list_revision (collect_room_list_state s1)) s1
        (cleanup_expired_leases-IsCounted crypto now s v)

  pub on_ping-IsCounted :
      (fd : ℕ) (s : SignalServer) → IsCounted s → IsCounted (on_ping crypto fd s)
  unfolding on_ping
  on_ping-IsCounted fd s v = send_client-IsCounted crypto fd msg_pong [] s v

  requested-IsCounted :
      (fd peer : ℕ) (s : SignalServer) → IsCounted s → IsCounted (request_of crypto fd peer s)
  unfolding request_of
  requested-IsCounted fd peer s v = option-IsCounted (find fd s.clients) s _ v (λ c.
      let v1 = find_client_by_peer_id-IsCounted peer s v in
      option-IsCounted (find_client_by_peer_id peer s).0 _ _ v1 (λ target.
        if-IsCounted (same_room c target)
          (send_relay_ready-IsCounted crypto target.tcp_fd c.peer_id _
            (send_relay_ready-IsCounted crypto fd peer _ v1))
          v1))

  pub on_request_relay-IsCounted :
      (fd : ℕ) (body : List ℕ) (s : SignalServer)
      → IsCounted s
      → IsCounted (on_request_relay crypto fd body s)
  unfolding on_request_relay
  on_request_relay-IsCounted fd body s v =
      option-IsCounted (p_u32 body) _ _ (kill_client-IsCounted fd s v)
        (λ p. requested-IsCounted fd p.0 s v)

  forward-IsCounted :
      (dst : ClientSession) (body : List ℕ) (s : SignalServer)
      → IsCounted s
      → IsCounted (forward crypto dst body s)
  unfolding forward
  forward-IsCounted dst body s v =
      let v1 = send_data-IsCounted crypto dst.tcp_fd msg_tcp_relay_data body s v in
      if-IsCounted (is_some dst.data_fd)
        (if-IsCounted (send_data crypto dst.tcp_fd msg_tcp_relay_data body s).0 v1
          (send_client-IsCounted crypto dst.tcp_fd msg_tcp_relay_data body _ v1))
        (send_client-IsCounted crypto dst.tcp_fd msg_tcp_relay_data body s v)

  relay_to-IsCounted :
      (c : ClientSession) (dst_id traffic_class : ℕ) (payload : List ℕ) (s : SignalServer)
      → IsCounted s
      → IsCounted (relay_to crypto c dst_id traffic_class payload s)
  unfolding relay_to
  relay_to-IsCounted c dst_id traffic_class payload s v =
      let v1 = find_client_by_peer_id-IsCounted dst_id s v in
      option-IsCounted (find_client_by_peer_id dst_id s).0 _ _ v1 (λ dst.
        if-IsCounted (same_room c dst)
          (forward-IsCounted dst (relay_body c dst_id traffic_class payload) _ v1) v1)

  relay_read-IsCounted :
      (c : ClientSession) (p : (ℕ × ℕ × ℕ) × List ℕ) (s : SignalServer)
      → IsCounted s
      → IsCounted (relay_read crypto c p s)
  unfolding relay_read
  relay_read-IsCounted c ((source, dst_id, traffic_class), payload) s v =
      if-IsCounted
        (not (source == c.peer_id)
          || (not (traffic_class == traffic_value traffic_tcp)
              && not (traffic_class == traffic_value traffic_udp)))
        v (relay_to-IsCounted c dst_id traffic_class payload s v)

  pub on_tcp_relay_data-IsCounted :
      (fd : ℕ) (body : List ℕ) (s : SignalServer)
      → IsCounted s
      → IsCounted (on_tcp_relay_data crypto fd body s)
  unfolding on_tcp_relay_data
  on_tcp_relay_data-IsCounted fd body s v =
      option-IsCounted (find fd s.clients) s _ v
        (λ c. option-IsCounted (parse_relay body) s _ v (λ p. relay_read-IsCounted c p s v))
