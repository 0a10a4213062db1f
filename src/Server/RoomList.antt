-- ===== src/Server/RoomList.antt =====
-- The list of the rooms, in pages and as changes (server/src/signal_server.cpp).
use vlan_connect.Prelude.{
  ltb, ◌==◌, if◌then◌else◌, length, ℕ, suc, ◌+◌, ◌%◌, ◌^◌, Bool, true, false, not, ◌&&◌, Option,
  none, some, List, [], ◌∷◌, ◌++◌, map,
}
use vlan_connect.Prelude.Map.{find, insert}
use vlan_connect.Room.Leases.{Room, is_some, is_empty}
use vlan_connect.Room.Manager.{list_rooms}
use vlan_connect.ByteBuffer.{u8_bytes, u16_bytes, u32_bytes, u64_bytes, string_bytes, size}
use vlan_connect.Session.{session_has_peer_identity}
use vlan_connect.Protocol.Constants.{room_list_page_payload, msg_room_list, msg_room_list_push}
use vlan_connect.Protocol.Policy.{transport_value, fec_value, profile_value, RoomTrafficPolicy}
use vlan_connect.ClientMessage.CreateRoom.{policy_bytes}
use vlan_connect.SecureFrame.Cipher.{Crypto}
use vlan_connect.Server.State.{ClientSession, RoomListState, SignalServer}
use vlan_connect.Server.Deliver.{send_client}

abbrev pub room_list_upsert : ℕ
room_list_upsert = 1

abbrev pub room_list_remove : ℕ
room_list_remove = 2

unfoldable pub list_state : Room → RoomListState
list_state room = record {
  room_id = room.id;
  room_name = room.name;
  player_count = length room.leases % 2 ^ 8;
  max_players = room.max_players;
  tcp_policy = room.tcp_policy;
  udp_policy = room.udp_policy;
  password_protected = room.password_protected;
  mtu = room.mtu;
}

unfoldable pub collect_states : List Room → List (ℕ × RoomListState) → List (ℕ × RoomListState)
unfolding list_state
collect_states [] result = result
collect_states (room ∷ rooms) result =
    collect_states rooms (insert room.id (list_state room) result)

unfoldable pub collect_room_list_state : SignalServer → List (ℕ × RoomListState)
unfolding collect_states list_rooms
collect_room_list_state s = collect_states (list_rooms s.rooms) []

abbrev pub same_name : List ℕ → List ℕ → Bool
same_name [] [] = true
same_name [] (y ∷ ys) = false
same_name (x ∷ xs) [] = false
same_name (x ∷ xs) (y ∷ ys) = x == y && same_name xs ys

abbrev pub same_policy : RoomTrafficPolicy → RoomTrafficPolicy → Bool
same_policy p q =
    transport_value p.transport_mode == transport_value q.transport_mode
    && fec_value p.fec_mode == fec_value q.fec_mode
    && profile_value p.kcp_profile == profile_value q.kcp_profile

-- RoomListState::operator==.
unfoldable pub same_state : RoomListState → RoomListState → Bool
same_state a b =
    a.room_id == b.room_id
    && same_name a.room_name b.room_name
    && a.player_count == b.player_count
    && a.max_players == b.max_players
    && same_policy a.tcp_policy b.tcp_policy
    && same_policy a.udp_policy b.udp_policy
    && a.password_protected == b.password_protected
    && a.mtu == b.mtu

unfoldable pub room_list_item : RoomListState → List ℕ
unfolding policy_bytes
room_list_item room =
    u32_bytes room.room_id
    ++ (string_bytes room.room_name
        ++ (u8_bytes room.player_count
            ++ (u8_bytes room.max_players
                ++ (policy_bytes room.tcp_policy
                    ++ (policy_bytes room.udp_policy
                        ++ (u8_bytes room.password_protected ++ u16_bytes room.mtu))))))

-- `8 + 2 + 2 + 2`, the size of a page's header.
abbrev pub page_header : ℕ
page_header = 14

-- The pages of the records, from the page that is being filled and its size so far.
unfoldable pub pack_pages : List (List ℕ) → List (List ℕ) → ℕ → List (List (List ℕ))
pack_pages [] page size = page ∷ []
pack_pages (r ∷ rs) page size =
    let same = pack_pages rs (page ++ r ∷ []) (size + length r) in
    let fresh = page ∷ pack_pages rs (r ∷ []) (page_header + length r) in
    if not (is_empty page) && ltb room_list_page_payload (size + length r) then fresh else same

unfoldable pub join_records : List (List ℕ) → List ℕ
join_records [] = []
join_records (r ∷ rs) = r ++ join_records rs

-- `for (pageIndex = 0; pageIndex < pageCount; ++pageIndex)`.
unfoldable pub write_pages : ℕ → ℕ → ℕ → List (List (List ℕ)) → List (List ℕ)
unfolding join_records
write_pages revision count index [] = []
write_pages revision count index (page ∷ pages) =
    (u64_bytes revision
      ++ (u16_bytes index
          ++ (u16_bytes count ++ (u16_bytes (length page % 2 ^ 16) ++ join_records page))))
    ∷ write_pages revision count (suc index) pages

unfoldable pub build_room_list_pages : ℕ → List (ℕ × RoomListState) → List (List ℕ)
unfolding pack_pages write_pages room_list_item
build_room_list_pages revision rooms =
    let pages = pack_pages (map (λ p. room_list_item p.1) rooms) [] page_header in
    write_pages revision (length pages % 2 ^ 16) 0 pages

-- A change of the published list.
pub data Operation : Type 0 where
  upsert : RoomListState → Operation
  remove : RoomListState → Operation

abbrev pub is_current : RoomListState → Option RoomListState → Bool
is_current state none = false
is_current state (some old) = same_state old state

unfoldable pub upserts : List (ℕ × RoomListState) → List (ℕ × RoomListState) → List Operation
unfolding same_state
upserts published [] = []
upserts published ((id, state) ∷ current) =
    let later = upserts published current in
    if is_current state (find id published) then later else upsert state ∷ later

unfoldable pub removals : List (ℕ × RoomListState) → List (ℕ × RoomListState) → List Operation
removals current [] = []
removals current ((id, state) ∷ published) =
    let later = removals current published in
    if is_some (find id current) then later else remove state ∷ later

unfoldable pub operation_bytes : Operation → List ℕ
unfolding room_list_item
operation_bytes (upsert state) = u8_bytes room_list_upsert ++ room_list_item state
operation_bytes (remove state) = u8_bytes room_list_remove ++ u32_bytes state.room_id

unfoldable pub delta_bytes : ℕ → ℕ → List Operation → List ℕ
unfolding operation_bytes join_records
delta_bytes base revision operations =
    u64_bytes base
    ++ (u64_bytes revision
        ++ (u16_bytes (length operations % 2 ^ 16)
            ++ join_records (map operation_bytes operations)))

unfoldable pub room_list_delta :
    List (ℕ × RoomListState) → List (ℕ × RoomListState) → List Operation
unfolding upserts removals
room_list_delta published current = upserts published current ++ removals current published

-- Who gets the change: a client that is logged in.
abbrev pub listens : Option ClientSession → Bool
listens none = false
listens (some c) =
    not (c.peer_id == 0) && c.alive && session_has_peer_identity c.state && c.server_auth_ok

module _ (crypto : Crypto) where
  unfoldable pub push_to_clients : List ℕ → List ℕ → SignalServer → SignalServer
  unfolding send_client
  push_to_clients [] body s = s
  push_to_clients (fd ∷ fds) body s = push_to_clients fds body (
      if listens (find fd s.clients)
      then (send_client crypto fd msg_room_list_push body s).1
      else s)

  unfoldable pub broadcast_room_list_push : SignalServer → SignalServer
  unfolding collect_room_list_state room_list_delta delta_bytes push_to_clients
  broadcast_room_list_push s =
      let current = collect_room_list_state s in
      let operations = room_list_delta s.published_rooms current in
      let revision = (s.room_list_revision + 1) % 2 ^ 64 in
      let body = delta_bytes s.room_list_revision revision operations in
      let s1 = record s { room_list_revision = revision } in
      if is_empty operations
      then s
      else if ltb room_list_page_payload (length body)
      then s1
      else push_to_clients (map (λ p. p.0) s.clients) body (record s1 { published_rooms = current })

  unfoldable pub send_pages : ℕ → List (List ℕ) → SignalServer → SignalServer
  unfolding send_client
  send_pages fd [] s = s
  send_pages fd (page ∷ pages) s =
      send_pages fd pages (send_client crypto fd msg_room_list page s).1
