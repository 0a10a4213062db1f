-- ===== src/Server/Tests.antt =====
-- The server with two members of room 5, sockets 3 and 4, and the room list of one room.
use vlan_connect.Prelude.{
  leb, ◌==◌, Bool-cases, none-some, some_inj, length, replicate, All, codes, ℕ, ◌+◌, ◌≤◌, ◌≡◌, refl,
  subst, ◌↔◌, ◌⊎◌, inl, inr, true, false, none, some, List, [], ◌∷◌, arith,
}
use vlan_connect.Prelude.Map.{find, total}
use vlan_connect.Session.{in_room}
use vlan_connect.ByteBuffer.Parser.{p_u8, p_u32}
use vlan_connect.Room.Manager.{new_manager, get_room}
use vlan_connect.Protocol.Policy.{make_default_tcp_policy, make_default_udp_policy}
use vlan_connect.Protocol.Constants.{
  vnet_subnet, reconnect_lease_timeout_sec, room_list_page_payload, msg_encrypted,
}
use vlan_connect.SecureFrame.Cipher.{reset}
use vlan_connect.SecureFrame.Copying.{toy}
use vlan_connect.Room.Leases.{
  RoomLease, Room, default_room, find_lease, lease_by_peer_id, is_some, new_lease,
}
use vlan_connect.ClientMessage.Readers.{or_all, has_nonzero_reconnect_token}
use vlan_connect.Server.Rooms.{token_is_zero, validate_resume_lease, put_rooms, offline_member}
use vlan_connect.Server.Resume.{Resumes, validate_resume_lease_iff, resume_window}
use vlan_connect.Server.State.{ClientSession, sent, would_block, RoomListState, SignalServer}
use vlan_connect.Server.Send.{Wire, consume_send_buffer, flush_loop}
use vlan_connect.Server.Deliver.{wire}
use vlan_connect.Server.Flush.{Flushed, flush_loop_lem}
use vlan_connect.Server.RoomList.{build_room_list_pages, room_list_delta}
use vlan_connect.Server.Handlers.{parse_relay, on_tcp_relay_data}
use vlan_connect.Server.Teardown.{network, destroy_client, check_timeouts}
use vlan_connect.Server.Dispatch.{Outside, process_message}
use vlan_connect.Server.Pages.Reader.{read_pages, IsListable}
use vlan_connect.Server.Pages.{build_room_list_pages_lem}
use vlan_connect.Server.Delta.{apply, apply-room_list_delta}
use vlan_connect.Server.Isolation.{Reached, on_tcp_relay_data_isolation}
use vlan_connect.Server.Accounts.{IsBounded, IsCounted}
use vlan_connect.Server.Accounts.Ending.{destroy_client_lem, check_timeouts-IsCounted}
use vlan_connect.Server.Accounts.Dispatch.{state_of, process_message-IsCounted}

abbrev carol : ClientSession
carol = record {
  tcp_fd = 3;
  data_fd = none;
  peer_id = 11;
  virtual_ip = 0;
  room_id = 5;
  name = codes "carol";
  send_buf = 1 ∷ 2 ∷ [];
  data_send_buf = [];
  last_ping = 0;
  alive = true;
  state = in_room;
  server_auth_ok = true;
  secure_enabled = true;
  secure_session_id = 0;
  secure_cipher = record reset { initialized = true };
  data_cipher = reset;
  hello_deadline = 0;
  auth_deadline = 0;
  send_budget_failures = 0;
  pending_join_room_id = 0;
  auth_challenge = [];
  resume_room_id = 0;
  resume_peer_id = 0;
  resume_token = [];
  udp_addr_known = false;
}

abbrev dana : ClientSession
dana = record carol { tcp_fd = 4; peer_id = 12; name = codes "dana"; send_buf = [] }

abbrev server : SignalServer
server = record {
  clients = (3, carol) ∷ (4, dana) ∷ [];
  data_fd_map = [];
  peer_map = (11, 3) ∷ (12, 4) ∷ [];
  secure_session_map = [];
  rooms = new_manager;
  next_peer_id = 13;
  free_peer_ids = [];
  max_rooms = 10;
  max_send_buffer_bytes = 1000;
  global_send_bytes = 2;
  room_list_revision = 1;
  published_rooms = [];
  answers = sent 7 ∷ would_block ∷ [];
}

server-IsBounded : (fd : ℕ) (c : ClientSession) → find fd server.clients ≡ some c → IsBounded fd c
unfolding find
server-IsBounded fd c e = elim (Bool-cases (3 == fd)) [
  | inl third ↦
      let fd_3 : 3 ≡ fd = ground arith in
      subst (IsBounded fd) (some_inj (rw third at e))
        (record { own_fd = fd_3; signal_low = omega arith; data_low = omega arith })
  | inr other ↦ elim (Bool-cases (4 == fd)) [
    | inl fourth ↦
        let fd_4 : 4 ≡ fd = ground arith in
        subst (IsBounded fd) (some_inj (rw (other, fourth) at e))
          (record { own_fd = fd_4; signal_low = omega arith; data_low = omega arith })
    | inr no_other ↦ absurd (none-some (rw (other, no_other) at e))
  ]
]

server-IsCounted : IsCounted server
unfolding total
server-IsCounted = record {
  rise = (omega arith, (omega arith, tt));
  exact = refl;
  global_low = omega arith;
  bounded = server-IsBounded;
}

abbrev outside : Outside
outside = record { now = 9; random = none; allowed = true }

abbrev relay_message : List ℕ
relay_message = 0 ∷ 0 ∷ 0 ∷ 11 ∷ 0 ∷ 0 ∷ 0 ∷ 12 ∷ 1 ∷ 99 ∷ []

process_message-IsCounted_example :
    IsCounted (state_of (process_message toy outside 3 msg_encrypted relay_message server))
process_message-IsCounted_example =
    process_message-IsCounted toy outside 3 msg_encrypted relay_message server server-IsCounted

check_timeouts-IsCounted_example : IsCounted (check_timeouts toy 60000 server)
check_timeouts-IsCounted_example = check_timeouts-IsCounted toy 60000 server server-IsCounted

relay_parsed : parse_relay relay_message ≡ some ((11, 12, 1), 99 ∷ [])
unfolding parse_relay p_u32 p_u8
relay_parsed = refl

dana_there : find 4 server.clients ≡ some dana
unfolding find
dana_there = refl

on_tcp_relay_data_isolation_example :
    (find 4 (on_tcp_relay_data toy 3 relay_message server).clients ≡ some dana)
    ⊎ Reached 3 relay_message server dana
on_tcp_relay_data_isolation_example =
    on_tcp_relay_data_isolation toy 3 relay_message server 4 dana dana_there

abbrev lobby : RoomListState
lobby = record {
  room_id = 5;
  room_name = codes "lobby";
  player_count = 2;
  max_players = 4;
  tcp_policy = make_default_tcp_policy;
  udp_policy = make_default_udp_policy;
  password_protected = 0;
  mtu = 1400;
}

abbrev other_room : RoomListState
other_room = record lobby { room_id = 7; room_name = codes "other" }

abbrev rooms_before : List (ℕ × RoomListState)
rooms_before = (5, lobby) ∷ (7, other_room) ∷ []

abbrev rooms_after : List (ℕ × RoomListState)
rooms_after = (5, record lobby { player_count = 3 }) ∷ []

lobby-IsListable : IsListable lobby
lobby-IsListable = record {
  id_low = omega arith;
  name_short = omega arith;
  tcp_canonical = λ e. ground arith;
  udp_canonical = λ e. ground arith;
  mtu_low = omega arith;
}

other_room-IsListable : IsListable other_room
other_room-IsListable = record {
  id_low = omega arith;
  name_short = omega arith;
  tcp_canonical = lobby-IsListable.tcp_canonical;
  udp_canonical = lobby-IsListable.udp_canonical;
  mtu_low = omega arith;
}

build_room_list_pages_lem_example :
    let pages = build_room_list_pages 8 rooms_before in
    (read_pages 8 (length pages) 0 pages ≡ some (lobby ∷ other_room ∷ []))
    × All (λ page. length page ≤ room_list_page_payload) pages
build_room_list_pages_lem_example =
    build_room_list_pages_lem 8 rooms_before (omega arith) (omega arith)
      (lobby-IsListable, (other_room-IsListable, tt))

apply-room_list_delta_example :
    find 7 (apply (room_list_delta rooms_before rooms_after) rooms_before) ≡ find 7 rooms_after
apply-room_list_delta_example =
    apply-room_list_delta rooms_before rooms_after (omega arith, refl, (omega arith, refl, tt))
      (omega arith, refl, tt) 7

-- One of carol's two bytes can go out now.
abbrev slow_wire : Wire
slow_wire = record (wire carol server) { answers = sent 1 ∷ would_block ∷ [] }

flush_slow_wire : (flush_loop 3 false slow_wire).1.client.send_buf ≡ 2 ∷ []
unfolding flush_loop consume_send_buffer
flush_slow_wire = refl

flush_loop_lem_example : Flushed false slow_wire (flush_loop 3 false slow_wire)
flush_loop_lem_example = flush_loop_lem 3 false slow_wire (omega arith)

abbrev eve : RoomLease
eve = new_lease 11 (vnet_subnet + 2) (codes "eve") (replicate 32 1)

abbrev den : Room
den = record default_room { id = 5; host_peer_id = 11; leases = eve ∷ []; max_players = 4 }

abbrev den_server : SignalServer
den_server = record server { rooms = record new_manager { rooms = (5, den) ∷ [] } }

den_there : get_room 5 den_server.rooms ≡ some den
unfolding get_room find
den_there = refl

eve_there : lease_by_peer_id 11 den ≡ some eve
unfolding lease_by_peer_id find_lease
eve_there = refl

eve_token : token_is_zero eve.token ≡ false
unfolding token_is_zero has_nonzero_reconnect_token or_all
eve_token = refl

validate_resume_lease_iff_example :
    (validate_resume_lease 0 5 11 eve.token den_server ≡ some (den, eve))
    ↔ Resumes 0 5 11 eve.token den_server den eve
validate_resume_lease_iff_example = validate_resume_lease_iff 0 5 11 eve.token den_server den eve

resume_window_example :
    let s = put_rooms (offline_member 30 5 11 den_server.rooms) den_server in
    is_some (validate_resume_lease 99 5 11 eve.token s) ≡ leb 99 (30 + reconnect_lease_timeout_sec)
resume_window_example = resume_window 30 99 5 11 den_server den eve den_there eve_there eve_token

destroy_client_lem_example :
    IsCounted (destroy_client 9 3 network server)
    × (find 3 (destroy_client 9 3 network server).clients ≡ none)
destroy_client_lem_example = destroy_client_lem 9 3 network server server-IsCounted
