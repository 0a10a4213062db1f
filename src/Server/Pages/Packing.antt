-- ===== src/Server/Pages/Packing.antt =====
-- How the rooms are split into the pages of the room list (server/src/signal_server.cpp).
use mathlib.Core.List.{append_assoc}
use vlan_connect.Prelude.{
  ltb, Bool-cases, length, All, length-append, ℕ, suc, ◌+◌, ◌≤◌, ◌≡◌, refl, sym, ap, ◌∙◌, subst,
  inl, inr, false, not, ◌&&◌, List, [], ◌∷◌, ◌++◌, map, arith,
}
use vlan_connect.Room.Leases.{is_empty}
use vlan_connect.Protocol.Constants.{room_list_page_payload}
use vlan_connect.ByteBuffer.{size}
use vlan_connect.Server.State.{RoomListState}
use vlan_connect.Server.RoomList.{room_list_item, page_header, pack_pages, join_records}
use vlan_connect.Server.Pages.Reader.{concat, IsListable, records_of}

unfoldable pub page_size : List (List ℕ) → ℕ
page_size page = page_header + length (join_records page)

length-join_records-append :
    (xs ys : List (List ℕ))
    → length (join_records (xs ++ ys)) ≡ length (join_records xs) + length (join_records ys)
unfolding join_records
length-join_records-append [] ys = omega arith
length-join_records-append (x ∷ xs) ys = omega (
  arith,
  length-join_records-append xs ys,
  length-append x (join_records (xs ++ ys)),
  length-append x (join_records xs),
)

-- A page that the loop fills: its size is counted, and it fits unless it is one record.
abbrev pub FitsPage : List (List ℕ) → Type 0
FitsPage page = page_size page ≤ room_list_page_payload

abbrev pub FitsAlone : List ℕ → Type 0
FitsAlone r = page_header + length r ≤ room_list_page_payload

page_size_one : (r : List ℕ) → page_size (r ∷ []) ≡ page_header + length r
unfolding page_size join_records
page_size_one r = omega (arith, length-append r [])

page_size_grown :
    (page : List (List ℕ)) (r : List ℕ) → page_size (page ++ r ∷ []) ≡ page_size page + length r
unfolding page_size
page_size_grown page r =
    omega (arith, length-join_records-append page (r ∷ []), page_size_one r, page_size_nil)
  where
    page_size_nil : page_size (r ∷ []) ≡ page_header + length (join_records (r ∷ []))
    page_size_nil = refl

fits_more :
    (page : List (List ℕ)) (r : List ℕ) (size : ℕ)
    → (not (is_empty page) && ltb room_list_page_payload (size + length r)) ≡ false
    → size ≡ page_size page
    → FitsAlone r
    → size + length r ≡ page_size (page ++ r ∷ [])
    → FitsPage (page ++ r ∷ [])
unfolding page_size join_records
fits_more [] r size room e a more = omega (arith, e, a, more)
fits_more (x ∷ page) r size room e a more =
    subst (λ n. n ≤ room_list_page_payload) more (ground arith)

pub pack_pages-FitsPage :
    (rs page : List (List ℕ)) (size : ℕ)
    → All FitsAlone rs
    → size ≡ page_size page
    → FitsPage page
    → All FitsPage (pack_pages rs page size)
unfolding pack_pages
pack_pages-FitsPage [] page size alone e fit = (fit, tt)
pack_pages-FitsPage (r ∷ rs) page size (a, alone) e fit =
    elim (Bool-cases (not (is_empty page) && ltb room_list_page_payload (size + length r))) [
      | inl full ↦
          let single : page_header + length r ≡ page_size (r ∷ []) = sym (page_size_one r) in
          rw full (
            fit,
            pack_pages-FitsPage rs (r ∷ []) (page_header + length r) alone single
                (omega (arith, single, a)),
          )
      | inr room ↦
          let more : size + length r ≡ page_size (page ++ r ∷ []) =
            omega (arith, e, page_size_grown page r) in
          rw room (
            pack_pages-FitsPage rs (page ++ r ∷ []) (size + length r) alone more
              (fits_more page r size room e a more))
    ]

-- The pages split the list of the rooms: their parts, in order, are the rooms that are left after
-- those of the page that is being filled.
pub record Parts (rooms part : List RoomListState) (pages : List (List (List ℕ))) : Type 0 where
  pub parts : List (List RoomListState)
  pub written : pages ≡ map records_of parts
  pub whole : concat parts ≡ part ++ rooms
  pub few : length parts ≤ suc (length rooms)
  pub listable : All (All IsListable) parts

records_of-append :
    (xs ys : List RoomListState) → records_of (xs ++ ys) ≡ records_of xs ++ records_of ys
records_of-append [] ys = refl
records_of-append (x ∷ xs) ys = ap (◌∷◌ (room_list_item x)) (records_of-append xs ys)

All-append :
    (xs ys : List RoomListState) → All IsListable xs → All IsListable ys → All IsListable (xs ++ ys)
All-append [] ys vs ws = ws
All-append (x ∷ xs) ys (v, vs) ws = (v, All-append xs ys vs ws)

pub pack_pages-Parts :
    (rooms part : List RoomListState) (size : ℕ)
    → All IsListable part
    → All IsListable rooms
    → Parts rooms part (pack_pages (records_of rooms) (records_of part) size)
unfolding pack_pages concat
pack_pages-Parts [] part size vs ws = record {
  parts = part ∷ [];
  written = refl;
  whole = refl;
  few = omega arith;
  listable = (vs, tt);
}
pack_pages-Parts (room ∷ rooms) part size vs (w, ws) =
    let r = room_list_item room in
    let full = not (is_empty (records_of part)) && ltb room_list_page_payload (size + length r) in
    elim (Bool-cases full) [
      | inl closed ↦
          let rest = pack_pages-Parts rooms (room ∷ []) (page_header + length r) (w, tt) ws in
          rw closed (record {
            parts = part ∷ rest.parts;
            written = ap (◌∷◌ (records_of part)) rest.written;
            whole = ap (◌++◌ part) rest.whole;
            few = omega (arith, rest.few);
            listable = (vs, rest.listable);
          })
      | inr open_page ↦
          let rest =
            pack_pages-Parts rooms (part ++ room ∷ []) (size + length r)
              (All-append part (room ∷ []) vs (w, tt)) ws in
          let grown = records_of-append part (room ∷ []) in
          rw open_page (record {
            parts = rest.parts;
            written =
                ap (λ page. pack_pages (records_of rooms) page (size + length r)) (sym grown)
                ∙ rest.written;
            whole = rest.whole ∙ append_assoc part (room ∷ []) rooms;
            few = omega (arith, rest.few);
            listable = rest.listable;
          })
    ]
