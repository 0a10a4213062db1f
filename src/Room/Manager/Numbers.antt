-- ===== src/Room/Manager/Numbers.antt =====
-- Room numbers: a number is never given out while a room has it.
use vlan_connect.Prelude.{
  ◌==◌, if◌then◌else◌, Option-cases, ℕ, suc, ◌+◌, ◌^◌, ◌≤◌, ◌<◌, ◌≡◌, refl, sym, ap, subst, ◌≢◌,
  inl, inr, true, false, ◌&&◌, ◌||◌, none, some, List, [], ◌∷◌, arith, dec_lt,
}
use vlan_connect.Prelude.Map.{
  find, Rising, find_below, find-insert, find-erase, insert-Rising, erase-Rising, set_mem,
  SetRising, set_mem-set_insert, set_mem_below, set_insert-SetRising,
}
use vlan_connect.Room.Manager.{
  RoomManager, take_room_id, allocate_room_id, RoomConfig, made_room, create_room, get_room,
  erase_room,
}
use vlan_connect.Room.Leases.{is_some}

-- Every number handed out is below the next one, and is either of a room or free.
pub record IsConsistent (m : RoomManager) : Type 0 where
  pub rooms_rise : Rising 1 m.rooms
  pub free_rise : SetRising 1 m.free_room_ids
  pub rooms_below : (id : ℕ) → m.next_room_id ≤ id → find id m.rooms ≡ none
  pub free_below : (id : ℕ) → m.next_room_id ≤ id → set_mem id m.free_room_ids ≡ false
  pub apart : (id : ℕ) → set_mem id m.free_room_ids ≡ true → find id m.rooms ≡ none
  pub positive : 1 ≤ m.next_room_id

-- What `allocateRoomId` leaves: the number is of no room, not free any more and used up.
record Allocated (m : RoomManager) (id : ℕ) (m' : RoomManager) : Type 0 where
  same : m'.rooms ≡ m.rooms
  low : 1 ≤ id
  high : id < m'.next_room_id
  unused : find id m.rooms ≡ none
  taken : set_mem id m'.free_room_ids ≡ false
  rise : SetRising 1 m'.free_room_ids
  grows : m.next_room_id ≤ m'.next_room_id
  fewer : (k : ℕ) → set_mem k m'.free_room_ids ≡ true → set_mem k m.free_room_ids ≡ true

SetRising-mono : (lo hi : ℕ) (s : List ℕ) → lo ≤ hi → SetRising hi s → SetRising lo s
SetRising-mono lo hi [] h r = tt
SetRising-mono lo hi (j ∷ s) h r = (omega arith, r.1)

take_room_id-Allocated :
    (free : List ℕ) (m : RoomManager)
    → free ≡ m.free_room_ids
    → IsConsistent m
    → m.next_room_id + 1 < 2 ^ 32
    → Allocated m (take_room_id free m).0 (take_room_id free m).1
unfolding take_room_id set_mem
take_room_id-Allocated [] m e v room = record {
  same = refl;
  low = v.positive;
  high = omega arith;
  unused = v.rooms_below m.next_room_id (omega arith);
  taken = rw (← e) refl;
  rise = v.free_rise;
  grows = omega arith;
  fewer = λ k h. h;
}
take_room_id-Allocated (id ∷ rest) m e v room =
    let rising : SetRising 1 (id ∷ rest) = subst (SetRising 1) (sym e) v.free_rise in
    let head : set_mem id m.free_room_ids ≡ true =
      subst (λ s. set_mem id s ≡ true) e (ground arith) in
    record {
      same = refl;
      low = rising.0;
      high = elim (dec_lt id m.next_room_id) [
        | yes lt ↦ lt
        | no ge ↦ cc (v.free_below id (omega arith))
      ];
      unused = v.apart id head;
      taken = set_mem_below id (suc id) rest rising.1 (omega arith);
      rise = SetRising-mono 1 (suc id) rest (omega arith) rising.1;
      grows = omega arith;
      fewer = λ k h. subst (λ s. set_mem k s ≡ true) e (ground arith);
    }

-- In a consistent manager the number of a new room is not 0, and no room has it. The manager stays consistent with the
-- room under that number, while every other room keeps its own. The counter has not run out.
pub create_room_lem :
    (c : RoomConfig) (m : RoomManager)
    → IsConsistent m
    → m.next_room_id + 1 < 2 ^ 32
    → let (r, m') = create_room c m in
      IsConsistent m'
      × (1 ≤ r.id)
      × (get_room r.id m ≡ none)
      × ((id : ℕ) → get_room id m' ≡ (if r.id == id then some r else get_room id m))
unfolding create_room allocate_room_id get_room made_room
create_room_lem c m v room =
    let a = take_room_id-Allocated m.free_room_ids m refl v room in
    let id = (take_room_id m.free_room_ids m).0 in
    let m' = (take_room_id m.free_room_ids m).1 in
    let found = λ (k : ℕ). find-insert id k (made_room id c) m'.rooms in
    (
      record {
        rooms_rise = insert-Rising id 1 (made_room id c) m'.rooms a.low (rw a.same v.rooms_rise);
        free_rise = a.rise;
        rooms_below = λ k h. ground (arith, found k, a.same, a.high, a.grows, v.rooms_below k);
        free_below = λ k h. ground (arith, a.fewer k, a.grows, v.free_below k);
        apart = λ k h. ground (arith, found k, a.same, a.fewer k, a.taken, v.apart k);
        positive = omega (arith, a.grows, v.positive);
      },
      a.low,
      a.unused,
      λ k. ground (arith, found k, a.same),
    )

find_zero : (m : RoomManager) → IsConsistent m → find 0 m.rooms ≡ none
find_zero m v = find_below 0 1 m.rooms v.rooms_rise (omega arith)

-- Erasing a room removes that room alone, gives its number back and keeps the manager consistent.
pub erase_room_lem :
    (id : ℕ) (m : RoomManager)
    → IsConsistent m
    → IsConsistent (erase_room id m)
      × ((other : ℕ)
          → get_room other (erase_room id m) ≡ (if id == other then none else get_room other m))
      × ((other : ℕ)
          → set_mem other (erase_room id m).free_room_ids
            ≡ (set_mem other m.free_room_ids || (id == other && is_some (get_room id m))))
unfolding erase_room get_room
erase_room_lem id m v = elim (Option-cases (find id m.rooms)) [
  | inl gone ↦ (
    rw (gone, erase_room) v,
    λ other. rw (gone, erase_room) (ground (arith, gone)),
    λ other. rw (gone, erase_room) (ground arith),
  )
  | inr (r, found) ↦
      let real : id ≢ 0 = λ e. cc (find_zero m v, ap (λ k. find k m.rooms) e, found) in
      let gone = λ (k : ℕ). find-erase id k 1 m.rooms v.rooms_rise in
      let freed = λ (k : ℕ). set_mem-set_insert id k m.free_room_ids in
      rw (found, erase_room)
        (
          record {
            rooms_rise = erase-Rising id 1 m.rooms v.rooms_rise;
            free_rise =
                ground (arith, real, v.free_rise, set_insert-SetRising id 1 m.free_room_ids);
            rooms_below = λ k h. ground (arith, gone k, v.rooms_below k);
            free_below = λ k h. ground (arith, freed k, v.free_below k, v.rooms_below k, found);
            apart = λ k h. ground (arith, freed k, gone k, v.apart k);
            positive = v.positive;
          },
          λ k. gone k,
          λ k. ground (arith, freed k, real, found),
        )
]
