-- ===== src/Server/Pages.antt =====
-- The pages of the room list (server/src/signal_server.cpp).
pub mod Reader
pub mod Packing
use mathlib.Core.List.{append_assoc}
use vlan_connect.Prelude.{
  length, All, length-append, ℕ, suc, ◌+◌, ◌%◌, ◌^◌, ◌≤◌, ◌<◌, ◌≡◌, refl, ap, ◌∙◌, subst, some,
  List, [], ◌∷◌, ◌++◌, map, arith,
}
use vlan_connect.Protocol.Constants.{max_players, room_list_page_payload}
use vlan_connect.ByteBuffer.{u8_bytes, u16_bytes}
use vlan_connect.ClientMessage.CreateRoom.{policy_bytes}
use vlan_connect.Server.State.{RoomListState}
use vlan_connect.Server.RoomList.{
  room_list_item, page_header, pack_pages, join_records, write_pages, build_room_list_pages,
}
use vlan_connect.Server.Pages.Reader.{read_pages, IsListable, records_of, read_pages-write_pages}
use vlan_connect.Server.Pages.Packing.{
  page_size, FitsPage, FitsAlone, pack_pages-FitsPage, pack_pages-Parts,
}

length-room_list_item :
    (room : RoomListState) → length (room_list_item room) ≡ 17 + length room.room_name
unfolding room_list_item policy_bytes
length-room_list_item room = omega (arith, length-append room.room_name (tail room))
  where
    tail : RoomListState → List ℕ
    tail room =
        u8_bytes room.player_count
        ++ (u8_bytes room.max_players
            ++ (policy_bytes room.tcp_policy
                ++ (policy_bytes room.udp_policy
                    ++ (u8_bytes room.password_protected ++ u16_bytes room.mtu))))

items_fit : (rooms : List RoomListState) → All IsListable rooms → All FitsAlone (records_of rooms)
items_fit [] short = tt
items_fit (room ∷ rooms) (v, vs) =
    (omega (arith, length-room_list_item room, v.name_short), items_fit rooms vs)

-- A page that fits has fewer than 2 ^ 16 rooms.
few_rooms : (rooms : List RoomListState) → length rooms ≤ length (join_records (records_of rooms))
unfolding join_records
few_rooms [] = omega arith
few_rooms (room ∷ rooms) = omega (
  arith,
  few_rooms rooms,
  length-room_list_item room,
  length-append (room_list_item room) (join_records (records_of rooms)),
)

short_parts :
    (parts : List (List RoomListState))
    → All FitsPage (map records_of parts)
    → All (All IsListable) parts
    → All (λ rooms. (length rooms < 2 ^ 16) × All IsListable rooms) parts
unfolding page_size
short_parts [] fits vs = tt
short_parts (rooms ∷ parts) (fit, fits) (v, vs) =
    ((omega (arith, fit, few_rooms rooms), v), short_parts parts fits vs)

write_pages-fit :
    (revision count index : ℕ) (pages : List (List (List ℕ)))
    → All FitsPage pages
    → All (λ page. length page ≤ room_list_page_payload) (write_pages revision count index pages)
unfolding write_pages page_size
write_pages-fit revision count index [] fits = tt
write_pages-fit revision count index (page ∷ pages) (fit, fits) =
    (omega (arith, fit), write_pages-fit revision count (suc index) pages fits)

length-write_pages :
    (revision count index : ℕ) (pages : List (List (List ℕ)))
    → length (write_pages revision count index pages) ≡ length pages
unfolding write_pages
length-write_pages revision count index [] = refl
length-write_pages revision count index (page ∷ pages) =
    ap suc (length-write_pages revision count (suc index) pages)

length-map-records_of :
    (parts : List (List RoomListState)) → length (map records_of parts) ≡ length parts
length-map-records_of [] = refl
length-map-records_of (part ∷ parts) = ap suc (length-map-records_of parts)

-- The bytes of a list of rooms, read back and bounded.
read_packed :
    (revision : ℕ) (rooms : List RoomListState)
    → revision < 2 ^ 64
    → suc (length rooms) < 2 ^ 16
    → All IsListable rooms
    → let packed = pack_pages (records_of rooms) [] page_header in
      let pages = write_pages revision (length packed % 2 ^ 16) 0 packed in
      (read_pages revision (length pages) 0 pages ≡ some rooms)
      × All (λ page. length page ≤ room_list_page_payload) pages
unfolding page_size join_records
read_packed revision rooms hr few v =
    let packed = pack_pages (records_of rooms) [] page_header in
    let count = length packed % 2 ^ 16 in
    let fits =
      pack_pages-FitsPage (records_of rooms) [] page_header (items_fit rooms v) refl
        (omega arith) in
    let q = pack_pages-Parts rooms [] page_header tt v in
    let n = length q.parts in
    let all : length packed ≡ n = ap length q.written ∙ length-map-records_of q.parts in
    let counted : count ≡ n = omega (arith, all, q.few, few) in
    let pages_n = length-write_pages revision count 0 packed ∙ all in
    let back =
      read_pages-write_pages revision n 0 q.parts hr (omega (arith, q.few, few)) (omega arith)
        (short_parts q.parts (subst (All FitsPage) q.written fits) q.listable) in
    (
      (λ i. read_pages revision (pages_n i) 0 (write_pages revision (counted i) 0 (q.written i)))
          ∙ back
          ∙ ap some q.whole,
      write_pages-fit revision count 0 packed fits,
    )

records_of-map :
    (rooms : List (ℕ × RoomListState))
    → records_of (map (λ p. p.1) rooms) ≡ map (λ p. room_list_item p.1) rooms
records_of-map [] = refl
records_of-map ((id, room) ∷ rooms) = ap (◌∷◌ (room_list_item room)) (records_of-map rooms)

length-map_rooms : (rooms : List (ℕ × RoomListState)) → length (map (λ p. p.1) rooms) ≡ length rooms
length-map_rooms [] = refl
length-map_rooms (p ∷ rooms) = ap suc (length-map_rooms rooms)

-- A client that reads the pages of the room list, each with the revision, the next index and the
-- number of the pages in its header, gets exactly the rooms in the order of the map, and no page
-- exceeds 60000 bytes. The revision has 64 bits, there are at most 65534 rooms, their fields fit
-- the types, a name has at most 63 bytes and a policy has no FEC over TCP.
pub build_room_list_pages_lem :
    (revision : ℕ) (rooms : List (ℕ × RoomListState))
    → revision < 2 ^ 64
    → suc (length rooms) < 2 ^ 16
    → All IsListable (map (λ p. p.1) rooms)
    → let pages = build_room_list_pages revision rooms in
      (read_pages revision (length pages) 0 pages ≡ some (map (λ p. p.1) rooms))
      × All (λ page. length page ≤ room_list_page_payload) pages
unfolding build_room_list_pages
build_room_list_pages_lem revision rooms hr few v =
    let states = map (λ p. p.1) rooms in
    subst
      (λ records.
        let packed = pack_pages records [] page_header in
        let pages = write_pages revision (length packed % 2 ^ 16) 0 packed in
        (read_pages revision (length pages) 0 pages ≡ some states)
        × All (λ page. length page ≤ room_list_page_payload) pages)
      (records_of-map rooms)
      (read_packed revision states hr (omega (arith, few, length-map_rooms rooms)) v)
