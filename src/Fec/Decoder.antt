-- ===== src/Fec/Decoder.antt =====
-- CliFecDecoder (client-cli/src/cli_fec.cpp): packets in, payloads out, within a fixed memory.
use vlan_connect.Prelude.{
  ltb, leb, ◌==◌, if◌then◌else◌, length, get_or, take, drop, replicate, ℕ, zero, suc, ◌+◌, ◌-◌, ◌*◌,
  ◌%◌, ◌^◌, Bool, true, false, not, ◌&&◌, ◌||◌, Option, none, some, List, [], ◌∷◌, ◌++◌, map,
}
use vlan_connect.Prelude.Map.{find, insert, erase, total, set_mem, set_insert}
use vlan_connect.Protocol.Constants.{fec_max_buffered_bytes, fec_max_active_groups}
use vlan_connect.Room.Leases.{is_some, is_empty}
use vlan_connect.Fec.Encoder.{Cm256}

pub record FecGroup : Type 0 where
  pub data_count : ℕ
  pub total_count : ℕ
  pub block_bytes : ℕ
  pub create_time : ℕ
  pub decoded : Bool
  pub blocks : List (ℕ × List ℕ)
  pub emitted_originals : List ℕ

-- `output` holds what `m_output` was called with, in order.
pub record FecDecoder : Type 0 where
  pub groups : List (ℕ × FecGroup)
  pub buffered_bytes : ℕ
  pub output : List (List ℕ)

abbrev pub new_decoder : FecDecoder
new_decoder = record { groups = []; buffered_bytes = 0; output = [] }

abbrev pub group_timeout_ms : ℕ
group_timeout_ms = 500

-- The payload of a block, of whose bytes the first `limit` are there. Past the end of a block of
-- one byte the code reads whatever lies there, and then drops it.
unfoldable pub block_payload : List ℕ → ℕ → List (List ℕ)
block_payload block limit =
    let len = get_or block 0 0 * 2 ^ 8 + get_or block 1 0 in
    if ltb 0 len && leb (2 + len) limit then take len (drop 2 block) ∷ [] else []

unfoldable pub emit_original_block : List ℕ → List (List ℕ)
unfolding block_payload
emit_original_block block = if ltb (length block) 2 then [] else block_payload block (length block)

unfoldable pub blocks_bytes : List (ℕ × List ℕ) → ℕ
blocks_bytes [] = 0
blocks_bytes ((i, b) ∷ bs) = length b + blocks_bytes bs

-- `bytes > m_bufferedBytes ? 0 : m_bufferedBytes - bytes` is the subtraction that stops at 0.
unfoldable pub remove_group : ℕ → FecDecoder → FecDecoder
remove_group gid d = elim (find gid d.groups) [
  | none ↦ d
  | some g ↦ record d {
    groups = erase gid d.groups;
    buffered_bytes = d.buffered_bytes - blocks_bytes g.blocks;
  }
]

-- The first of the groups with the least time, from the group seen so far.
unfoldable pub oldest : ℕ → ℕ → List (ℕ × FecGroup) → ℕ
oldest gid time [] = gid
oldest gid time ((j, g) ∷ gs) =
    let older = ltb g.create_time time in
    oldest (if older then j else gid) (if older then g.create_time else time) gs

unfoldable pub oldest_group : List (ℕ × FecGroup) → ℕ
unfolding oldest
oldest_group [] = 0
oldest_group ((j, g) ∷ gs) = oldest j g.create_time gs

-- The condition of the loop in `ensureCapacity`.
unfoldable pub must_evict : ℕ → Bool → FecDecoder → Bool
must_evict incoming new_group d =
    not (is_empty d.groups)
    && ((new_group && leb fec_max_active_groups (length d.groups))
        || ltb fec_max_buffered_bytes (d.buffered_bytes + incoming))

-- The loop of `ensureCapacity` on fuel.
unfoldable pub evict : ℕ → ℕ → Bool → FecDecoder → Option FecDecoder
unfolding must_evict oldest_group
evict zero incoming new_group d = none
evict (suc fuel) incoming new_group d =
    let rest = evict fuel incoming new_group (remove_group (oldest_group d.groups) d) in
    if must_evict incoming new_group d then rest else some d

unfoldable pub has_room : ℕ → Bool → FecDecoder → Bool
has_room incoming new_group d =
    (not new_group || ltb (length d.groups) fec_max_active_groups)
    && leb (d.buffered_bytes + incoming) fec_max_buffered_bytes

abbrev pub evicted : ℕ → Bool → FecDecoder → Option FecDecoder → Bool × FecDecoder
evicted incoming new_group d none = (false, d)
evicted incoming new_group d (some d') = (has_room incoming new_group d', d')

unfoldable pub ensure_capacity : ℕ → Bool → FecDecoder → Bool × FecDecoder
unfolding evict has_room
ensure_capacity incoming new_group d =
    if ltb fec_max_buffered_bytes incoming
    then (false, d)
    else evicted incoming new_group d (evict (suc (length d.groups)) incoming new_group d)

unfoldable pub mark_decoded : ℕ → FecGroup → List (List ℕ) → FecDecoder → FecDecoder
mark_decoded gid g out d = record d {
  groups = insert gid (record g { decoded = true }) d.groups;
  output = d.output ++ out;
}

-- `resize(blockBytes, 0)` of a block that is shorter.
unfoldable pub block_storage : ℕ → ℕ × List ℕ → ℕ × List ℕ
block_storage bytes (i, b) = (i, b ++ replicate (bytes - length b) 0)

unfoldable pub orig_map : List (ℕ × List ℕ) → List (ℕ × List ℕ) → List (ℕ × List ℕ)
orig_map [] m = m
orig_map ((i, b) ∷ bs) m = orig_map bs (insert i b m)

abbrev pub found_payload : ℕ → Option (List ℕ) → List (List ℕ)
found_payload bytes none = []
found_payload bytes (some b) = block_payload b bytes

-- `for (i = 0; i < N; ++i)`, by the rounds left.
unfoldable pub recovered : ℕ → List ℕ → List (ℕ × List ℕ) → ℕ → ℕ → List (List ℕ)
recovered bytes emitted originals zero i = []
recovered bytes emitted originals (suc k) i =
    (if set_mem i emitted then [] else found_payload bytes (find i originals))
    ++ recovered bytes emitted originals k (suc i)

unfoldable pub put_block : ℕ → ℕ → ℕ → List ℕ → FecGroup → FecDecoder → FecDecoder
put_block gid idx n block g d = record d {
  groups =
      insert gid
        (record g {
          blocks = insert idx block g.blocks;
          emitted_originals =
              if ltb idx n then set_insert idx g.emitted_originals else g.emitted_originals;
        })
        d.groups;
  buffered_bytes = d.buffered_bytes + length block;
  output = d.output ++ (if ltb idx n then emit_original_block block else []);
}

abbrev pub new_fec_group : ℕ → ℕ → ℕ → ℕ → FecGroup
new_fec_group now n total bytes = record {
  data_count = n;
  total_count = total;
  block_bytes = bytes;
  create_time = now;
  decoded = false;
  blocks = [];
  emitted_originals = [];
}

module _ (cm : Cm256) where
  open cm use {decode}

  -- What `cm256_decode` gives back of the first N blocks.
  unfoldable pub decode_group : FecGroup → Option (List (ℕ × List ℕ))
  decode_group g =
      decode g.data_count (g.total_count - g.data_count) g.block_bytes
        (map (block_storage g.block_bytes) (take g.data_count g.blocks))

  abbrev pub decoded_output : FecGroup → Option (List (ℕ × List ℕ)) → List (List ℕ)
  decoded_output g none = []
  decoded_output g (some bs) =
      recovered g.block_bytes g.emitted_originals (orig_map bs []) g.data_count 0

  unfoldable pub decode_found : ℕ → FecGroup → FecDecoder → FecDecoder
  unfolding decode_group mark_decoded
  decode_found gid g d =
      if g.decoded
      then d
      else if leb g.data_count (length g.emitted_originals)
      then mark_decoded gid g [] d
      else if ltb (length g.blocks) g.data_count
      then d
      else mark_decoded gid g (decoded_output g (decode_group g)) d

  unfoldable pub try_decode : ℕ → FecDecoder → FecDecoder
  unfolding decode_found
  try_decode gid d = elim (find gid d.groups) [ none ↦ d | some g ↦ decode_found gid g d ]

  unfoldable pub decode_if_full : ℕ → FecDecoder → FecDecoder
  decode_if_full gid d = elim (find gid d.groups) [
    | none ↦ d
    | some g ↦ if leb g.data_count (length g.blocks) then try_decode gid d else d
  ]

  unfoldable pub store_block : ℕ → ℕ → ℕ → List ℕ → FecDecoder → FecDecoder
  unfolding decode_if_full
  store_block gid idx n block d =
      let (ok, d') = ensure_capacity (length block) false d in
      if ok
      then elim (find gid d'.groups) [
        | none ↦ d'
        | some g ↦ decode_if_full gid (put_block gid idx n block g d')
      ]
      else d'

  unfoldable pub receive_block : ℕ → ℕ → ℕ → List ℕ → FecDecoder → FecDecoder
  unfolding store_block decode_if_full
  receive_block gid idx n block d = elim (find gid d.groups) [
    | none ↦ d
    | some g ↦
        if g.decoded
        then d
        else if is_some (find idx g.blocks)
        then decode_if_full gid d
        else store_block gid idx n block d
  ]

  unfoldable pub open_group : ℕ → ℕ → ℕ → ℕ → ℕ → List ℕ → FecDecoder → FecDecoder
  open_group now gid idx n total block d =
      let (ok, d') = ensure_capacity (length block) true d in
      let group = new_fec_group now n total (length block) in
      if ok
      then receive_block gid idx n block (record d' { groups = insert gid group d'.groups })
      else d'

  -- A packet for a group that is open.
  unfoldable pub continue_group : ℕ → ℕ → ℕ → ℕ → List ℕ → FecGroup → FecDecoder → FecDecoder
  unfolding receive_block
  continue_group gid idx n total block g d =
      if not (g.data_count == n)
        || not (g.total_count == total)
        || not (g.block_bytes == length block)
      then remove_group gid d
      else receive_block gid idx n block d

  -- `now` is what `currentTimeMs` returns.
  unfoldable pub add_packet : ℕ → List ℕ → FecDecoder → FecDecoder
  unfolding open_group continue_group
  add_packet now (gid ∷ idx ∷ n ∷ total ∷ block) d =
      if ltb n 1 || ltb 10 n || ltb total n || ltb (3 * n) total || leb total idx
      then d
      else if length block == 0
      then d
      else elim (find gid d.groups) [
        | none ↦ open_group now gid idx n total block d
        | some g ↦ continue_group gid idx n total block g d
      ]
  add_packet now _ d = d

-- `nowMs - createTime` in 32 bits.
unfoldable pub is_stale : ℕ → FecGroup → Bool
is_stale now g = ltb group_timeout_ms ((now + 2 ^ 32 - g.create_time) % 2 ^ 32)

unfoldable pub stale_groups : ℕ → List (ℕ × FecGroup) → List ℕ
stale_groups now [] = []
stale_groups now ((gid, g) ∷ gs) =
    let later = stale_groups now gs in if is_stale now g then gid ∷ later else later

unfoldable pub remove_groups : List ℕ → FecDecoder → FecDecoder
remove_groups [] d = d
remove_groups (gid ∷ gids) d = remove_groups gids (remove_group gid d)

unfoldable pub cleanup : ℕ → FecDecoder → FecDecoder
unfolding stale_groups remove_groups
cleanup now d = remove_groups (stale_groups now d.groups) d
