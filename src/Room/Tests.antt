-- ===== src/Room/Tests.antt =====
-- A room of two members, and what becomes of it.
use vlan_connect.Prelude.{
  ◌==◌, if◌then◌else◌, replicate, codes, ℕ, ◌+◌, ◌≤◌, ◌<◌, ◌≡◌, refl, ◌⊎◌, true, false, ◌&&◌, ◌||◌,
  none, some, [], ◌∷◌, ◌++◌, arith,
}
use vlan_connect.Prelude.Map.{find, set_mem}
use vlan_connect.Protocol.Constants.{vnet_subnet}
use vlan_connect.Protocol.Policy.{make_default_tcp_policy, make_default_udp_policy}
use vlan_connect.Room.Leases.{
  RoomLease, Room, default_room, has_virtual_ip, allocate_virtual_ip, find_lease, lease_by_peer_id,
  is_some, has_lease, new_lease, add_lease, remove_lease,
}
use vlan_connect.Room.Addresses.{allocate_virtual_ip_lem}
use vlan_connect.Room.Invariant.{IsValid, fresh_lease, add_lease_lem}
use vlan_connect.Room.Membership.{remove_lease_lem}
use vlan_connect.Room.Manager.{
  RoomManager, RoomConfig, create_room, get_room, cleanup_empty_rooms, erase_room,
}
use vlan_connect.Room.Manager.Cleanup.{kept, emptied, cleanup_empty_rooms_lem}
use vlan_connect.Room.Manager.Numbers.{IsConsistent, create_room_lem, erase_room_lem}

abbrev alice : RoomLease
alice = new_lease 11 (vnet_subnet + 2) (codes "alice") (replicate 32 1)

abbrev bobby : RoomLease
bobby = record (new_lease 12 (vnet_subnet + 3) (codes "bobby") (replicate 32 2)) { online = false }

abbrev room : Room
room = record default_room {
  id = 1;
  host_peer_id = 11;
  leases = alice ∷ bobby ∷ [];
  max_players = 3;
}

room-IsValid : IsValid room
unfolding find_lease has_virtual_ip
room-IsValid = record {
  peers = (refl, (refl, tt));
  ips = (refl, (refl, tt));
  subnet = ((omega arith, omega arith), ((omega arith, omega arith), tt));
  capacity = omega arith;
  limit = omega arith;
  host = refl;
}

abbrev clara : RoomLease
clara = fresh_lease 13 (codes "clara") [] room

add_lease_lem_example :
    let (result, r) = add_lease 13 (codes "clara") [] room in
    IsValid r
    × (((2 < 3)
          × (find_lease 13 room.leases ≡ none)
          × (result ≡ some clara)
          × (r.leases ≡ room.leases ++ clara ∷ []))
        ⊎ (((3 ≤ 2) ⊎ (has_lease 13 room ≡ true))
            × (add_lease 13 (codes "clara") [] room ≡ (none, room))))
add_lease_lem_example = add_lease_lem 13 (codes "clara") [] room room-IsValid

remove_lease_lem_example :
    let (found, r) = remove_lease 500 11 room in
    IsValid r
    × (found ≡ has_lease 11 room)
    × ((q : ℕ) → lease_by_peer_id q r ≡ (if 11 == q then none else lease_by_peer_id q room))
remove_lease_lem_example = remove_lease_lem 500 11 room room-IsValid

allocate_virtual_ip_lem_example :
    (vnet_subnet + 2 ≤ allocate_virtual_ip room)
    × (allocate_virtual_ip room ≤ vnet_subnet + 254)
    × (has_virtual_ip (allocate_virtual_ip room) room.leases ≡ false)
allocate_virtual_ip_lem_example = allocate_virtual_ip_lem room (omega arith)

-- A manager with that room, and the number 2 given back.
abbrev manager : RoomManager
manager = record { rooms = (1, room) ∷ []; free_room_ids = 2 ∷ []; next_room_id = 3 }

abbrev config : RoomConfig
config = record {
  name = codes "lan";
  host = 13;
  max_players = 4;
  tcp_policy = make_default_tcp_policy;
  udp_policy = make_default_udp_policy;
  mtu = 1400;
  password_protected = 0;
  password_hash = none;
  password_salt = none;
}

manager-IsConsistent : IsConsistent manager
unfolding find set_mem
manager-IsConsistent = record {
  rooms_rise = (omega arith, tt);
  free_rise = (omega arith, tt);
  rooms_below = λ id h. ground arith;
  free_below = λ id h. ground arith;
  apart = λ id h. ground arith;
  positive = omega arith;
}

create_room_lem_example :
    let (r, m) = create_room config manager in
    IsConsistent m
    × (1 ≤ r.id)
    × (get_room r.id manager ≡ none)
    × ((id : ℕ) → get_room id m ≡ (if r.id == id then some r else get_room id manager))
create_room_lem_example = create_room_lem config manager manager-IsConsistent (omega arith)

erase_room_lem_example :
    IsConsistent (erase_room 1 manager)
    × ((other : ℕ)
        → get_room other (erase_room 1 manager)
          ≡ (if 1 == other then none else get_room other manager))
    × ((other : ℕ)
        → set_mem other (erase_room 1 manager).free_room_ids
          ≡ (set_mem other manager.free_room_ids || (1 == other && is_some (get_room 1 manager))))
erase_room_lem_example = erase_room_lem 1 manager manager-IsConsistent

abbrev with_empty : RoomManager
with_empty = record {
  rooms = (1, room) ∷ (2, default_room) ∷ [];
  free_room_ids = [];
  next_room_id = 3;
}

with_empty-IsConsistent : IsConsistent with_empty
unfolding find set_mem
with_empty-IsConsistent = record {
  rooms_rise = (omega arith, (omega arith, tt));
  free_rise = tt;
  rooms_below = λ id h. ground arith;
  free_below = λ id h. refl;
  apart = λ id h. cc;
  positive = omega arith;
}

cleanup_empty_rooms_lem_example :
    let m' = (cleanup_empty_rooms with_empty).1 in
    IsConsistent m'
    × ((id : ℕ) → get_room id m' ≡ kept (get_room id with_empty))
    × ((id : ℕ)
        → set_mem id m'.free_room_ids
          ≡ (set_mem id with_empty.free_room_ids || emptied (get_room id with_empty)))
cleanup_empty_rooms_lem_example = cleanup_empty_rooms_lem with_empty with_empty-IsConsistent
