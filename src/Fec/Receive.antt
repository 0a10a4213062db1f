-- ===== src/Fec/Receive.antt =====
-- CliFecDecoder::addPacket and cleanup (client-cli/src/cli_fec.cpp) keep the account of the memory.
use vlan_connect.Prelude.{
  ltb, ◌==◌, if◌then◌else◌, Bool-cases, Option-cases, length, ℕ, suc, ◌≡◌, refl, ◌∙◌, inl, inr,
  Bool, true, false, Option, none, some, List, [], ◌∷◌, arith,
}
use vlan_connect.Prelude.Map.{
  find, insert, Rising, find_below, find-erase, insert-Rising, length-insert_new, length-insert_old,
  total, set_mem, set_insert,
}
use vlan_connect.Fec.Decoder.{
  FecGroup, FecDecoder, blocks_bytes, remove_group, has_room, ensure_capacity, mark_decoded,
  put_block, new_fec_group, decode_found, try_decode, decode_if_full, store_block, receive_block,
  open_group, continue_group, add_packet, is_stale, stale_groups, remove_groups, cleanup,
}
use vlan_connect.Fec.Bytes.{
  IsValid, blocks_bytes-insert, groups_bytes-insert_new, groups_bytes-insert_old,
  remove_group-IsValid, remove_group-output,
}
use vlan_connect.Fec.Encoder.{Cm256}
use vlan_connect.Fec.Capacity.{ensure_capacity_lem}

mark_decoded-IsValid :
    (gid : ℕ) (g : FecGroup) (out : List (List ℕ)) (d : FecDecoder)
    → find gid d.groups ≡ some g
    → IsValid d
    → IsValid (mark_decoded gid g out d)
unfolding mark_decoded
mark_decoded-IsValid gid g out d e v = ground (
  arith,
  insert-Rising gid 0 (record g { decoded = true }) d.groups,
  groups_bytes-insert_old gid 0 (record g { decoded = true }) g d.groups v.rise e,
  length-insert_old gid 0 (record g { decoded = true }) g d.groups v.rise e,
)

put_block-IsValid :
    (gid idx n : ℕ) (block : List ℕ) (g : FecGroup) (d : FecDecoder)
    → find gid d.groups ≡ some g
    → find idx g.blocks ≡ none
    → has_room (length block) false d ≡ true
    → IsValid d
    → IsValid (put_block gid idx n block g d)
unfolding put_block has_room
put_block-IsValid gid idx n block g d e new room v =
    let g' : FecGroup = record g {
      blocks = insert idx block g.blocks;
      emitted_originals =
          if ltb idx n then set_insert idx g.emitted_originals else g.emitted_originals;
    } in
    ground (
      arith,
      insert-Rising gid 0 g' d.groups,
      groups_bytes-insert_old gid 0 g' g d.groups v.rise e,
      length-insert_old gid 0 g' g d.groups v.rise e,
      blocks_bytes-insert idx block g.blocks new,
    )

add_group-IsValid :
    (gid incoming : ℕ) (g : FecGroup) (d : FecDecoder)
    → find gid d.groups ≡ none
    → blocks_bytes g.blocks ≡ 0
    → has_room incoming true d ≡ true
    → IsValid d
    → IsValid (record d { groups = insert gid g d.groups })
unfolding has_room
add_group-IsValid gid incoming g d e none_yet room v = ground (
  arith,
  insert-Rising gid 0 g d.groups,
  groups_bytes-insert_new gid g d.groups e,
  length-insert_new gid g d.groups e,
)

if_IsValid : (b : Bool) {x y : FecDecoder} → IsValid x → IsValid y → IsValid (if b then x else y)
if_IsValid true p q = p
if_IsValid false p q = q

module _ (cm : Cm256) where
  decode_found-IsValid :
      (gid : ℕ) (g : FecGroup) (d : FecDecoder)
      → find gid d.groups ≡ some g
      → IsValid d
      → IsValid (decode_found cm gid g d)
  unfolding decode_found
  decode_found-IsValid gid g d e v =
      let marked = λ (out : List (List ℕ)). mark_decoded-IsValid gid g out d e v in
      if_IsValid _ v (if_IsValid _ (marked _) (if_IsValid _ v (marked _)))

  decode_if_full-IsValid :
      (gid : ℕ) (d : FecDecoder) → IsValid d → IsValid (decode_if_full cm gid d)
  unfolding decode_if_full try_decode
  decode_if_full-IsValid gid d v = elim (Option-cases (find gid d.groups)) [
    | inl e ↦ rw (decode_if_full, e) v
    | inr (g, e) ↦
        rw (decode_if_full, e, try_decode, e) (if_IsValid _ (decode_found-IsValid gid g d e v) v)
  ]

  -- The block that is stored is new to its group, also after groups were dropped for it.
  store_block-IsValid :
      (gid idx n : ℕ) (block : List ℕ) (g : FecGroup) (d : FecDecoder)
      → find gid d.groups ≡ some g
      → find idx g.blocks ≡ none
      → IsValid d
      → IsValid (store_block cm gid idx n block d)
  unfolding store_block
  store_block-IsValid gid idx n block g d e new v =
      let (v', out, ok, room, kept) = ensure_capacity_lem (length block) false d v in
      let d' = (ensure_capacity (length block) false d).1 in
      elim (Bool-cases (ensure_capacity (length block) false d).0) [
        | inr full ↦ rw full v'
        | inl fits ↦ rw fits (elim (kept gid) [
          | inl gone ↦ rw gone v'
          | inr same ↦ rw (same ∙ e) (
              decode_if_full-IsValid gid (put_block gid idx n block g d')
                (put_block-IsValid gid idx n block g d' (same ∙ e) new (room fits) v'))
        ])
      ]

  receive_block-IsValid :
      (gid idx n : ℕ) (block : List ℕ) (d : FecDecoder)
      → IsValid d
      → IsValid (receive_block cm gid idx n block d)
  unfolding receive_block
  receive_block-IsValid gid idx n block d v = elim (Option-cases (find gid d.groups)) [
    | inl e ↦ rw (receive_block, e) v
    | inr (g, e) ↦
        rw (receive_block, e)
          (elim (Option-cases (find idx g.blocks)) [
            | inl new ↦ rw new (if_IsValid _ v (store_block-IsValid gid idx n block g d e new v))
            | inr (b, old) ↦ rw old (if_IsValid _ v (decode_if_full-IsValid gid d v))
          ])
  ]

  open_group-IsValid :
      (now gid idx n total : ℕ) (block : List ℕ) (d : FecDecoder)
      → find gid d.groups ≡ none
      → IsValid d
      → IsValid (open_group cm now gid idx n total block d)
  unfolding open_group blocks_bytes
  open_group-IsValid now gid idx n total block d e v =
      let (v', out, ok, room, kept) = ensure_capacity_lem (length block) true d v in
      let d' = (ensure_capacity (length block) true d).1 in
      let g = new_fec_group now n total (length block) in
      let none_yet : find gid d'.groups ≡ none = elim (kept gid) [
        | inl gone ↦ gone
        | inr same ↦ same ∙ e
      ] in
      elim (Bool-cases (ensure_capacity (length block) true d).0) [
        | inr full ↦ rw full v'
        | inl fits ↦ rw fits (
            receive_block-IsValid gid idx n block (record d' { groups = insert gid g d'.groups })
              (add_group-IsValid gid (length block) g d' none_yet refl (room fits) v'))
      ]

  continue_group-IsValid :
      (gid idx n total : ℕ) (block : List ℕ) (g : FecGroup) (d : FecDecoder)
      → IsValid d
      → IsValid (continue_group cm gid idx n total block g d)
  unfolding continue_group
  continue_group-IsValid gid idx n total block g d v =
      if_IsValid _ (remove_group-IsValid gid d v) (receive_block-IsValid gid idx n block d v)

  -- Whatever the bytes of a packet are, the decoder's account of its memory stays exact and within
  -- 256 KiB and 32 groups.
  pub add_packet-IsValid :
      (now : ℕ) (packet : List ℕ) (d : FecDecoder)
      → IsValid d
      → IsValid (add_packet cm now packet d)
  unfolding add_packet
  add_packet-IsValid now (gid ∷ idx ∷ n ∷ total ∷ block) d v =
      elim (Option-cases (find gid d.groups)) [
        | inl e ↦
            rw e
              (if_IsValid _ v (if_IsValid _ v (open_group-IsValid now gid idx n total block d e v)))
        | inr (g, e) ↦
            rw e
              (if_IsValid _ v (if_IsValid _ v (continue_group-IsValid gid idx n total block g d v)))
      ]
  add_packet-IsValid now _ d v = v

-- What the cleanup asks of a group, and what it leaves of it.
abbrev pub stale_found : ℕ → Option FecGroup → Bool
stale_found now none = false
stale_found now (some g) = is_stale now g

abbrev pub fresh_group : ℕ → Option FecGroup → Option FecGroup
fresh_group now none = none
fresh_group now (some g) = if is_stale now g then none else some g

find-remove_group :
    (gid k : ℕ) (d : FecDecoder)
    → IsValid d
    → find k (remove_group gid d).groups ≡ (if gid == k then none else find k d.groups)
unfolding remove_group
find-remove_group gid k d v = elim (Option-cases (find gid d.groups)) [
  | inl e ↦ rw (remove_group, e) (ground arith)
  | inr (g, e) ↦ rw (remove_group, e) (find-erase gid k 0 d.groups v.rise)
]

-- What is left under a key when groups are removed.
remove_groups_lem :
    (gids : List ℕ) (d : FecDecoder)
    → IsValid d
    → let d' = remove_groups gids d in
      IsValid d'
      × (d'.output ≡ d.output)
      × ((k : ℕ) → find k d'.groups ≡ (if set_mem k gids then none else find k d.groups))
unfolding remove_groups set_mem
remove_groups_lem [] d v = (v, refl, λ k. refl)
remove_groups_lem (gid ∷ gids) d v =
    let (v', out, found) =
      remove_groups_lem gids (remove_group gid d) (remove_group-IsValid gid d v) in
    (v', out ∙ remove_group-output gid d, λ k. ground (arith, found k, find-remove_group gid k d v))

set_mem-stale_groups :
    (now k lo : ℕ) (gs : List (ℕ × FecGroup))
    → Rising lo gs
    → set_mem k (stale_groups now gs) ≡ stale_found now (find k gs)
unfolding stale_groups set_mem find
set_mem-stale_groups now k lo [] r = refl
set_mem-stale_groups now k lo ((j, g) ∷ gs) r =
    ground (arith, set_mem-stale_groups now k (suc j) gs r.1, find_below k (suc j) gs r.1)

-- The cleanup removes exactly the groups that were opened more than 500 ms ago, in the clock's 32
-- bits. It keeps the account of the memory and makes no output.
pub cleanup_lem :
    (now : ℕ) (d : FecDecoder)
    → IsValid d
    → let d' = cleanup now d in
      IsValid d'
      × (d'.output ≡ d.output)
      × ((k : ℕ) → find k d'.groups ≡ fresh_group now (find k d.groups))
unfolding cleanup
cleanup_lem now d v =
    let (v', out, found) = remove_groups_lem (stale_groups now d.groups) d v in
    (
      v',
      out,
      λ k. found k ∙ rw (set_mem-stale_groups now k 0 d.groups v.rise) (left now (find k d.groups)),
    )
  where
    left :
        (now : ℕ) (o : Option FecGroup)
        → (if stale_found now o then none else o) ≡ fresh_group now o
    left now none = refl
    left now (some g) = refl
