-- ===== src/Room/Manager/Cleanup.antt =====
-- RoomManager::cleanupEmptyRooms: the rooms without a lease go, and their numbers are free again.
use vlan_connect.Prelude.{
  if◌then◌else◌, ℕ, suc, ◌≤◌, ◌≡◌, refl, Bool, false, ◌||◌, Option, none, some, List, [], ◌∷◌,
  arith,
}
use vlan_connect.Prelude.Map.{
  find, Rising, find_below, Rising-mono, set_mem, set_insert, SetRising, set_mem-set_insert,
  set_insert-SetRising,
}
use vlan_connect.Room.Leases.{Room, is_empty}
use vlan_connect.Room.Manager.{RoomManager, get_room, kept_rooms, freed_ids, cleanup_empty_rooms}
use vlan_connect.Room.Manager.Numbers.{IsConsistent}

-- What becomes of the room under a number, and whether the number is given back.
abbrev pub kept : Option Room → Option Room
kept none = none
kept (some r) = if is_empty r.leases then none else some r

abbrev pub emptied : Option Room → Bool
emptied none = false
emptied (some r) = is_empty r.leases

find-kept_rooms :
    (k lo : ℕ) (rs : List (ℕ × Room)) → Rising lo rs → find k (kept_rooms rs) ≡ kept (find k rs)
unfolding find kept_rooms
find-kept_rooms k lo [] rise = refl
find-kept_rooms k lo ((id, r) ∷ rs) rise =
    ground (arith, find-kept_rooms k (suc id) rs rise.1, find_below k (suc id) rs rise.1)

kept_rooms-Rising : (lo : ℕ) (rs : List (ℕ × Room)) → Rising lo rs → Rising lo (kept_rooms rs)
unfolding kept_rooms
kept_rooms-Rising lo [] rise = tt
kept_rooms-Rising lo ((id, r) ∷ rs) rise =
    ground (arith, kept_rooms-Rising (suc id) rs rise.1, Rising-mono lo (suc id) (kept_rooms rs))

set_mem-freed_ids :
    (k lo : ℕ) (rs : List (ℕ × Room)) (free : List ℕ)
    → Rising lo rs
    → set_mem k (freed_ids rs free) ≡ (set_mem k free || emptied (find k rs))
unfolding find freed_ids
set_mem-freed_ids k lo [] free rise = ground arith
set_mem-freed_ids k lo ((id, r) ∷ rs) free rise = ground (
  arith,
  set_mem-freed_ids k (suc id) rs (if is_empty r.leases then set_insert id free else free) rise.1,
  set_mem-set_insert id k free,
  find_below k (suc id) rs rise.1,
)

freed_ids-SetRising :
    (lo : ℕ) (rs : List (ℕ × Room)) (free : List ℕ)
    → 1 ≤ lo
    → Rising lo rs
    → SetRising 1 free
    → SetRising 1 (freed_ids rs free)
unfolding freed_ids
freed_ids-SetRising lo [] free low rise v = v
freed_ids-SetRising lo ((id, r) ∷ rs) free low rise v =
    freed_ids-SetRising (suc id) rs (if is_empty r.leases then set_insert id free else free)
      (omega arith) rise.1 (ground (arith, set_insert-SetRising id 1 free))

-- The cleanup removes exactly the rooms without a lease, gives back exactly their numbers and keeps
-- the manager consistent.
pub cleanup_empty_rooms_lem :
    (m : RoomManager)
    → IsConsistent m
    → let m' = (cleanup_empty_rooms m).1 in
      IsConsistent m'
      × ((id : ℕ) → get_room id m' ≡ kept (get_room id m))
      × ((id : ℕ)
          → set_mem id m'.free_room_ids ≡ (set_mem id m.free_room_ids || emptied (get_room id m)))
unfolding cleanup_empty_rooms get_room
cleanup_empty_rooms_lem m v =
    let stays = λ (k : ℕ). find-kept_rooms k 1 m.rooms v.rooms_rise in
    let freed = λ (k : ℕ). set_mem-freed_ids k 1 m.rooms m.free_room_ids v.rooms_rise in
    (
      record {
        rooms_rise = kept_rooms-Rising 1 m.rooms v.rooms_rise;
        free_rise =
            freed_ids-SetRising 1 m.rooms m.free_room_ids (omega arith) v.rooms_rise v.free_rise;
        rooms_below = λ id h. ground (arith, stays id, v.rooms_below id h);
        free_below = λ id h. ground (arith, freed id, v.free_below id h, v.rooms_below id h);
        apart = λ id h. ground (arith, freed id, stays id, v.apart id);
        positive = v.positive;
      },
      stays,
      freed,
    )
