-- ===== src/Server/Pages/Reader.antt =====
-- The room list read back: each room as readRoomListItem (client-cli/src/cli_net.cpp) reads it, and
-- the pages by an independent description of a whole list. A page that does not continue the list
-- gives `none`, where the client asks for the list again.
use mathlib.Core.List.{append_assoc, append-nil}
use vlan_connect.Prelude.{
  ◌==◌, if◌then◌else◌, length, All, ◌>>=◌, return, ℕ, zero, suc, ◌+◌, ◌%◌, ◌^◌, ◌≤◌, ◌<◌, ◌≡◌, refl,
  sym, ap, ◌∙◌, true, not, ◌&&◌, Option, none, some, List, [], ◌∷◌, ◌++◌, map, arith,
}
use vlan_connect.Protocol.Constants.{max_room_name_len}
use vlan_connect.Protocol.Policy.{make_default_tcp_policy, make_default_udp_policy}
use vlan_connect.Protocol.Policies.{IsCanonical}
use vlan_connect.ByteBuffer.Parser.{Parse, p_u8, p_u16, p_u32, p_u64, p_string, p_at_end}
use vlan_connect.TrafficCodec.{parse_traffic_policy, parse_traffic_policy_of}
use vlan_connect.Server.State.{RoomListState}
use vlan_connect.Server.RoomList.{room_list_item, join_records, write_pages}
use vlan_connect.ByteBuffer.{u8_bytes, u16_bytes, u64_bytes}
use vlan_connect.ByteBuffer.RoundTrip.{p_u16_of, p_u32_of, p_u64_of, p_string_of}
use vlan_connect.ClientMessage.CreateRoom.{policy_bytes}

-- From the policies on, with what was read before them.
unfoldable pub parse_item_end : ℕ → List ℕ → ℕ → ℕ → Parse RoomListState
unfolding parse_traffic_policy
parse_item_end id name players most = do
  tcp ← parse_traffic_policy make_default_tcp_policy
  udp ← parse_traffic_policy make_default_udp_policy
  protected ← p_u8
  mtu ← p_u16
  return (record {
    room_id = id;
    room_name = name;
    player_count = players;
    max_players = most;
    tcp_policy = tcp;
    udp_policy = udp;
    password_protected = protected;
    mtu = mtu;
  })

-- CliSignalClient::readRoomListItem.
unfoldable pub parse_item : Parse RoomListState
unfolding parse_item_end p_string
parse_item = do
  id ← p_u32
  name ← p_string
  players ← p_u8
  most ← p_u8
  parse_item_end id name players most

unfoldable pub parse_items : ℕ → Parse (List RoomListState)
unfolding parse_item
parse_items zero = return []
parse_items (suc n) = do room ← parse_item; rooms ← parse_items n; return (room ∷ rooms)

unfoldable pub parse_header : Parse (ℕ × ℕ × ℕ × ℕ)
parse_header = do
  revision ← p_u64
  index ← p_u16
  count ← p_u16
  n ← p_u16
  return (revision, index, count, n)

-- The rooms of one page: its revision, its index and the count of the pages are the expected ones,
-- and nothing follows the rooms.
unfoldable pub read_page : ℕ → ℕ → ℕ → List ℕ → Option (List RoomListState)
unfolding parse_items parse_header
read_page revision count index page = elim (parse_header page) [
  | none ↦ none
  | some ((revision', index', count', n), body) ↦
      if not (revision' == revision && index' == index && count' == count)
      then none
      else elim (parse_items n body) [
        | none ↦ none
        | some (rooms, rest) ↦ if p_at_end rest then some rooms else none
      ]
]

-- The rooms of all pages, the first of which has the given index.
unfoldable pub read_pages : ℕ → ℕ → ℕ → List (List ℕ) → Option (List RoomListState)
unfolding read_page
read_pages revision count index [] = some []
read_pages revision count index (page ∷ pages) =
    let later = read_pages revision count (suc index) pages in
    elim (read_page revision count index page) [
      | none ↦ none
      | some rooms ↦ elim later [ none ↦ none | some more ↦ some (rooms ++ more) ]
    ]

unfoldable pub concat : List (List RoomListState) → List RoomListState
concat [] = []
concat (rooms ∷ parts) = rooms ++ concat parts

-- What the server keeps of a room: the fields fit their types, and the policies are normalised.
pub record IsListable (room : RoomListState) : Type 0 where
  pub id_low : room.room_id < 2 ^ 32
  pub name_short : length room.room_name ≤ max_room_name_len
  pub tcp_canonical : IsCanonical room.tcp_policy
  pub udp_canonical : IsCanonical room.udp_policy
  pub mtu_low : room.mtu < 2 ^ 16

item_tail : RoomListState → List ℕ → List ℕ
item_tail room rest =
    policy_bytes room.tcp_policy
    ++ (policy_bytes room.udp_policy
        ++ (u8_bytes room.password_protected ++ (u16_bytes room.mtu ++ rest)))

parse_item_end_of :
    (room : RoomListState) (rest : List ℕ)
    → IsListable room
    → parse_item_end room.room_id room.room_name room.player_count room.max_players
        (item_tail room rest)
      ≡ some (room, rest)
unfolding parse_item_end item_tail p_u8
parse_item_end_of room rest v =
    let end = u8_bytes room.password_protected ++ (u16_bytes room.mtu ++ rest) in
    let after = policy_bytes room.udp_policy ++ end in
    rw
      (
        parse_item_end,
        ◌>>=◌,
        parse_traffic_policy_of room.tcp_policy make_default_tcp_policy after v.tcp_canonical,
        parse_traffic_policy_of room.udp_policy make_default_udp_policy end v.udp_canonical,
        p_u8,
        p_u16_of room.mtu rest v.mtu_low,
      )
      refl

pub parse_item_of :
    (room : RoomListState) (rest : List ℕ)
    → IsListable room
    → parse_item (room_list_item room ++ rest) ≡ some (room, rest)
unfolding parse_item room_list_item item_tail p_u8 policy_bytes
parse_item_of room rest v =
    let counts = u8_bytes room.player_count ++ u8_bytes room.max_players in
    rw (append_assoc room.room_name (counts ++ item_tail room []) rest) (
      rw
        (
          parse_item,
          ◌>>=◌,
          p_u32_of room.room_id _ v.id_low,
          p_string_of room.room_name (counts ++ item_tail room rest) (omega (arith, v.name_short)),
          p_u8,
        )
        (parse_item_end_of room rest v))

abbrev pub records_of : List RoomListState → List (List ℕ)
records_of rooms = map room_list_item rooms

parse_items_of :
    (rooms : List RoomListState) (rest : List ℕ)
    → All IsListable rooms
    → parse_items (length rooms) (join_records (records_of rooms) ++ rest) ≡ some (rooms, rest)
unfolding parse_items join_records
parse_items_of [] rest v = refl
parse_items_of (room ∷ rooms) rest (v, vs) =
    let more = join_records (records_of rooms) in
    rw (append_assoc (room_list_item room) more rest)
      (rw (◌>>=◌, parse_item_of room (more ++ rest) v, parse_items_of rooms rest vs) refl)

length-records_of : (rooms : List RoomListState) → length (records_of rooms) ≡ length rooms
length-records_of [] = refl
length-records_of (room ∷ rooms) = ap suc (length-records_of rooms)

parse_header_of :
    (revision index count n : ℕ) (body : List ℕ)
    → revision < 2 ^ 64
    → index < 2 ^ 16
    → count < 2 ^ 16
    → n < 2 ^ 16
    → parse_header
        (u64_bytes revision ++ (u16_bytes index ++ (u16_bytes count ++ (u16_bytes n ++ body))))
      ≡ some ((revision, index, count, n), body)
unfolding parse_header
parse_header_of revision index count n body hr hi hc hn =
    rw
      (
        ◌>>=◌,
        p_u64_of revision (u16_bytes index ++ (u16_bytes count ++ (u16_bytes n ++ body))) hr,
        p_u16_of index (u16_bytes count ++ (u16_bytes n ++ body)) hi,
        p_u16_of count (u16_bytes n ++ body) hc,
        p_u16_of n body hn,
      )
      refl

-- A page of rooms, as the server writes it, is read back.
pub read_page_of :
    (revision count index n : ℕ) (rooms : List RoomListState)
    → revision < 2 ^ 64
    → index < 2 ^ 16
    → count < 2 ^ 16
    → n < 2 ^ 16
    → n ≡ length rooms
    → All IsListable rooms
    → read_page revision count index (
        u64_bytes revision
        ++ (u16_bytes index
            ++ (u16_bytes count ++ (u16_bytes n ++ join_records (records_of rooms)))))
      ≡ some rooms
unfolding read_page p_at_end
read_page_of revision count index n rooms hr hi hc hn e v =
    let body = join_records (records_of rooms) in
    let whole : parse_items n body ≡ some (rooms, []) =
      ap (λ m. parse_items m body) e
      ∙ ap (parse_items (length rooms)) (sym (append-nil body))
      ∙ parse_items_of rooms [] v in
    let same : (revision == revision && index == index && count == count) ≡ true = ground arith in
    rw (read_page, parse_header_of revision index count n body hr hi hc hn, same, whole) refl

-- The pages of the parts of a list, as the server writes them.
pub read_pages-write_pages :
    (revision count index : ℕ) (parts : List (List RoomListState))
    → revision < 2 ^ 64
    → count < 2 ^ 16
    → index + length parts ≤ count
    → All (λ rooms. (length rooms < 2 ^ 16) × All IsListable rooms) parts
    → read_pages revision count index (write_pages revision count index (map records_of parts))
      ≡ some (concat parts)
unfolding read_pages write_pages concat
read_pages-write_pages revision count index [] hr hc room v = refl
read_pages-write_pages revision count index (rooms ∷ parts) hr hc room ((short, v), vs) =
    let n = length (records_of rooms) % 2 ^ 16 in
    let one =
      read_page_of revision count index n rooms hr (omega arith) hc (omega arith)
        (omega (arith, length-records_of rooms)) v in
    let later = read_pages-write_pages revision count (suc index) parts hr hc (omega arith) vs in
    rw (read_pages, one, later) refl
