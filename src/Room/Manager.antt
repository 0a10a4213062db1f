-- ===== src/Room/Manager.antt =====
-- RoomManager (server/src/room.h): the map of the rooms and the pool of room numbers.
pub mod Numbers
pub mod Cleanup
use vlan_connect.Prelude.{
  ◌==◌, if◌then◌else◌, replicate, ℕ, ◌+◌, ◌%◌, ◌^◌, Bool, false, not, ◌&&◌, ◌||◌, Option, none,
  some, List, [], ◌∷◌, map,
}
use vlan_connect.Prelude.Map.{find, insert, erase, set_insert}
use vlan_connect.Protocol.Policy.{normalize_room_mtu, RoomTrafficPolicy}
use vlan_connect.Protocol.Constants.{max_players, auth_salt_size}
use vlan_connect.Room.Leases.{Room, default_room, is_some, ensure_host, is_empty}

pub record RoomManager : Type 0 where
  pub rooms : List (ℕ × Room)
  pub free_room_ids : List ℕ
  pub next_room_id : ℕ

pub new_manager : RoomManager
new_manager = record { rooms = []; free_room_ids = []; next_room_id = 1 }

-- The smallest number that was given back, or else the next one; `m_nextRoomId++` wraps.
unfoldable pub take_room_id : List ℕ → RoomManager → ℕ × RoomManager
take_room_id [] m = (m.next_room_id, record m { next_room_id = (m.next_room_id + 1) % 2 ^ 32 })
take_room_id (id ∷ rest) m = (id, record m { free_room_ids = rest })

unfoldable pub allocate_room_id : RoomManager → ℕ × RoomManager
unfolding take_room_id
allocate_room_id m = take_room_id m.free_room_ids m

-- What the caller asks of a new room. A null `pwdHash` or `pwdSalt` is `none`.
pub record RoomConfig : Type 0 where
  pub name : List ℕ
  pub host : ℕ
  pub max_players : ℕ
  pub tcp_policy : RoomTrafficPolicy
  pub udp_policy : RoomTrafficPolicy
  pub mtu : ℕ
  pub password_protected : ℕ
  pub password_hash : Option (List ℕ)
  pub password_salt : Option (List ℕ)

abbrev or_zeros : ℕ → Option (List ℕ) → List ℕ
or_zeros n none = replicate n 0
or_zeros n (some d) = d

unfoldable pub made_room : ℕ → RoomConfig → Room
made_room id c =
    let secret = not (c.password_protected == 0) && is_some c.password_hash in
    record default_room {
      id = id;
      name = c.name;
      host_peer_id = c.host;
      max_players = c.max_players;
      tcp_policy = c.tcp_policy;
      udp_policy = c.udp_policy;
      mtu = normalize_room_mtu c.mtu;
      password_protected = c.password_protected;
      password_hash = if secret then or_zeros 32 c.password_hash else replicate 32 0;
      password_salt =
          if secret then or_zeros auth_salt_size c.password_salt else replicate auth_salt_size 0;
    }

unfoldable pub create_room : RoomConfig → RoomManager → Room × RoomManager
create_room c m =
    let (id, m') = allocate_room_id m in
    (made_room id c, record m' { rooms = insert id (made_room id c) m'.rooms })

unfoldable pub get_room : ℕ → RoomManager → Option Room
get_room id m = find id m.rooms

-- A write through the pointer that `getRoom` returns.
unfoldable pub put_room : ℕ → Room → RoomManager → RoomManager
put_room id r m = record m { rooms = insert id r m.rooms }

unfoldable pub ensure_room_host : ℕ → RoomManager → RoomManager
ensure_room_host id m = elim (get_room id m) [ none ↦ m | some r ↦ put_room id (ensure_host r) m ]

unfoldable pub kept_rooms : List (ℕ × Room) → List (ℕ × Room)
kept_rooms [] = []
kept_rooms ((id, r) ∷ rs) = if is_empty r.leases then kept_rooms rs else (id, r) ∷ kept_rooms rs

unfoldable pub freed_ids : List (ℕ × Room) → List ℕ → List ℕ
freed_ids [] free = free
freed_ids ((id, r) ∷ rs) free =
    freed_ids rs (if is_empty r.leases then set_insert id free else free)

unfoldable pub any_empty : List (ℕ × Room) → Bool
any_empty [] = false
any_empty ((id, r) ∷ rs) = is_empty r.leases || any_empty rs

unfoldable pub cleanup_empty_rooms : RoomManager → Bool × RoomManager
cleanup_empty_rooms m = (
  any_empty m.rooms,
  record m { rooms = kept_rooms m.rooms; free_room_ids = freed_ids m.rooms m.free_room_ids },
)

unfoldable pub list_rooms : RoomManager → List Room
list_rooms m = map (λ p. p.1) m.rooms

unfoldable pub erase_room : ℕ → RoomManager → RoomManager
erase_room id m = elim (get_room id m) [
  | none ↦ m
  | some r ↦ record m {
    rooms = erase id m.rooms;
    free_room_ids = if id == 0 then m.free_room_ids else set_insert id m.free_room_ids;
  }
]
