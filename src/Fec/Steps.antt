-- ===== src/Fec/Steps.antt =====
-- CliFecDecoder::addPacket (client-cli/src/cli_fec.cpp) on the next original block of a group.
use mathlib.Core.List.{append-nil}
use vlan_connect.Prelude.{
  ltb, leb, ◌==◌, if◌then◌else◌, lt→ltb, Bool-cases, length, ℕ, suc, ◌+◌, ◌*◌, ◌%◌, ◌^◌, ◌≤◌, ◌<◌,
  ◌≡◌, refl, sym, ap, ◌∙◌, subst, inl, inr, Bool, true, false, not, ◌||◌, none, some, List, [], ◌∷◌,
  ◌++◌, arith,
}
use vlan_connect.Prelude.Map.{
  find, insert, find-insert, length-insert_new, total, set_mem, set_insert, set_mem-set_insert,
}
use vlan_connect.Protocol.Constants.{fec_max_buffered_bytes}
use vlan_connect.Fec.Decoder.{
  FecGroup, FecDecoder, emit_original_block, must_evict, evict, has_room, ensure_capacity,
  mark_decoded, put_block, new_fec_group, decode_found, try_decode, decode_if_full, store_block,
  receive_block, open_group, continue_group, add_packet,
}
use vlan_connect.Fec.Encoder.{Cm256, fec_packet}

-- The group after its first `i` original blocks.
pub record Holds (n total bytes i : ℕ) (g : FecGroup) : Type 0 where
  pub count : g.data_count ≡ n
  pub whole : g.total_count ≡ total
  pub size : g.block_bytes ≡ bytes
  pub finished : g.decoded ≡ leb n i
  pub stored : length g.blocks ≡ i
  pub next_free : (k : ℕ) → i ≤ k → find k g.blocks ≡ none
  pub emitted : length g.emitted_originals ≡ i
  pub not_emitted : (k : ℕ) → i ≤ k → set_mem k g.emitted_originals ≡ false

ensure_capacity_fits :
    (incoming : ℕ) (new_group : Bool) (d : FecDecoder)
    → has_room incoming new_group d ≡ true
    → ensure_capacity incoming new_group d ≡ (true, d)
unfolding ensure_capacity has_room must_evict evict
ensure_capacity_fits incoming new_group d h =
    let stays : must_evict incoming new_group d ≡ false = ground arith in
    let small : ltb fec_max_buffered_bytes incoming ≡ false = ground arith in
    rw (small, stays, h) refl

length-set_insert :
    (k : ℕ) (s : List ℕ) → set_mem k s ≡ false → length (set_insert k s) ≡ suc (length s)
unfolding set_mem set_insert
length-set_insert k [] e = refl
length-set_insert k (j ∷ s) e = ground (arith, length-set_insert k s)

-- The group with one more original block.
abbrev with_block : ℕ → List ℕ → Bool → FecGroup → FecGroup
with_block i block decoded g = record g {
  blocks = insert i block g.blocks;
  emitted_originals = set_insert i g.emitted_originals;
  decoded = decoded;
}

with_block-Holds :
    (n total bytes i : ℕ) (block : List ℕ) (decoded : Bool) (g : FecGroup)
    → decoded ≡ leb n (suc i)
    → Holds n total bytes i g
    → Holds n total bytes (suc i) (with_block i block decoded g)
with_block-Holds n total bytes i block decoded g e h = record {
  count = h.count;
  whole = h.whole;
  size = h.size;
  finished = e;
  stored =
      omega (arith, length-insert_new i block g.blocks (h.next_free i (omega arith)), h.stored);
  next_free = λ k le. ground (arith, find-insert i k block g.blocks, h.next_free k (omega arith));
  emitted =
      omega
        (arith, length-set_insert i g.emitted_originals (h.not_emitted i (omega arith)), h.emitted);
  not_emitted = λ k le.
      ground (arith, set_mem-set_insert i k g.emitted_originals, h.not_emitted k (omega arith));
}

-- What an original block does to the decoder: its payload is put out, its bytes are counted.
pub record Took (gid n total bytes i : ℕ) (block : List ℕ) (d d' : FecDecoder) : Type 0 where
  pub output : d'.output ≡ d.output ++ emit_original_block block
  pub counted : d'.buffered_bytes ≡ d.buffered_bytes + bytes
  pub group : FecGroup
  pub found : find gid d'.groups ≡ some group
  pub holds : Holds n total bytes (suc i) group

-- A group whose blocks were all put out already is finished without a call of the library.
decode_if_full_lem :
    (cm : Cm256) (gid : ℕ) (g : FecGroup) (d : FecDecoder)
    → find gid d.groups ≡ some g
    → g.decoded ≡ false
    → length g.emitted_originals ≡ length g.blocks
    → decode_if_full cm gid d
      ≡ (if leb g.data_count (length g.blocks) then mark_decoded gid g [] d else d)
unfolding decode_if_full try_decode decode_found
decode_if_full_lem cm gid g d e fresh all = elim (Bool-cases (leb g.data_count (length g.blocks))) [
  | inl full ↦ rw (decode_if_full, e, full, try_decode, e, fresh, all, full) refl
  | inr short ↦ rw (decode_if_full, e, short) refl
]

module _ (cm : Cm256) (gid n i : ℕ) (block : List ℕ) (g : FecGroup) (d : FecDecoder) where
  store_block-put_block :
      find gid d.groups ≡ some g
      → has_room (length block) false d ≡ true
      → store_block cm gid i n block d ≡ decode_if_full cm gid (put_block gid i n block g d)
  unfolding store_block
  store_block-put_block e room =
      let fits = ensure_capacity_fits (length block) false d room in
      let run : Bool × FecDecoder → FecDecoder = λ p.
        if p.0
        then elim (find gid p.1.groups) [
          | none ↦ p.1
          | some h ↦ decode_if_full cm gid (put_block gid i n block h p.1)
        ]
        else p.1 in
      let on_found : run (true, d) ≡ decode_if_full cm gid (put_block gid i n block g d) =
        rw e refl in
      ap run fits ∙ on_found

  receive_block-put_block :
      find gid d.groups ≡ some g
      → g.decoded ≡ false
      → find i g.blocks ≡ none
      → has_room (length block) false d ≡ true
      → receive_block cm gid i n block d ≡ decode_if_full cm gid (put_block gid i n block g d)
  unfolding receive_block
  receive_block-put_block e fresh new room = ground (arith, store_block-put_block e room)

  find-put_block :
      i < n → find gid (put_block gid i n block g d).groups ≡ some (with_block i block g.decoded g)
  unfolding put_block
  find-put_block less =
      ground (arith, find-insert gid gid (with_block i block g.decoded g) d.groups)

has_room_old :
    (incoming : ℕ) (d : FecDecoder)
    → d.buffered_bytes + incoming ≤ fec_max_buffered_bytes
    → has_room incoming false d ≡ true
unfolding has_room
has_room_old incoming d h = ground arith

module _ (cm : Cm256) (gid n total bytes i : ℕ) (block : List ℕ) (g : FecGroup) (more : i < n)
    (len : length block ≡ bytes) (h : Holds n total bytes i g) where
  put_block-Took :
      (d : FecDecoder)
      → find gid (put_block gid i n block g d).groups ≡ some (with_block i block g.decoded g)
      → g.decoded ≡ leb n (suc i)
      → Took gid n total bytes i block d (put_block gid i n block g d)
  unfolding put_block
  put_block-Took d found e = record {
    output = rw (lt→ltb i n more) refl;
    counted = ap (λ k. d.buffered_bytes + k) len;
    group = with_block i block g.decoded g;
    found = found;
    holds = with_block-Holds n total bytes i block g.decoded g e h;
  }

  mark_decoded-Took :
      (d : FecDecoder)
      → leb n (suc i) ≡ true
      → Took gid n total bytes i block d
          (mark_decoded gid (with_block i block g.decoded g) [] (put_block gid i n block g d))
  unfolding put_block mark_decoded
  mark_decoded-Took d last =
      let g' = with_block i block true g in
      record {
        output = rw (lt→ltb i n more, append-nil) refl;
        counted = ap (λ k. d.buffered_bytes + k) len;
        group = g';
        found = ground (arith, find-insert gid gid g' (put_block gid i n block g d).groups);
        holds = with_block-Holds n total bytes i block true g (sym last) h;
      }

  -- An original block of an open group, in turn.
  pub receive_block-Took :
      (d : FecDecoder)
      → find gid d.groups ≡ some g
      → d.buffered_bytes + bytes ≤ fec_max_buffered_bytes
      → Took gid n total bytes i block d (receive_block cm gid i n block d)
  receive_block-Took d e room =
      let fresh : g.decoded ≡ false = ground (arith, h.finished) in
      let fits : has_room (length block) false d ≡ true =
        has_room_old (length block) d (omega arith) in
      let put = put_block gid i n block g d in
      let g' = with_block i block g.decoded g in
      let found = find-put_block cm gid n i block g d more in
      let stored : receive_block cm gid i n block d ≡ decode_if_full cm gid put =
        receive_block-put_block cm gid n i block g d e fresh (h.next_free i (omega arith)) fits in
      let shown = length-set_insert i g.emitted_originals (h.not_emitted i (omega arith)) in
      let kept = length-insert_new i block g.blocks (h.next_free i (omega arith)) in
      let level : length g'.emitted_originals ≡ length g'.blocks =
        omega (arith, shown, kept, h.emitted, h.stored) in
      let done = decode_if_full_lem cm gid g' put found fresh level in
      let full : leb g'.data_count (length g'.blocks) ≡ leb n (suc i) =
        rw (h.count, kept, h.stored) refl in
      subst (Took gid n total bytes i block d) (sym (stored ∙ done)) (
        rw full (elim (Bool-cases (leb n (suc i))) [
          | inl last ↦ rw last (mark_decoded-Took d last)
          | inr short ↦ rw short (put_block-Took d found (fresh ∙ sym short))
        ]))

open_group_fits :
    (cm : Cm256) (now gid n total bytes i : ℕ) (block : List ℕ) (d : FecDecoder)
    → length block ≡ bytes
    → has_room bytes true d ≡ true
    → open_group cm now gid i n total block d
      ≡ receive_block cm gid i n block
          (record d { groups = insert gid (new_fec_group now n total bytes) d.groups })
unfolding open_group
open_group_fits cm now gid n total bytes i block d len room =
    let run : ℕ → Bool × FecDecoder → FecDecoder = λ size p.
      if p.0
      then receive_block cm gid i n block
          (record p.1 { groups = insert gid (new_fec_group now n total size) p.1.groups })
      else p.1 in
    let fits : ensure_capacity (length block) true d ≡ (true, d) =
      rw len (ensure_capacity_fits bytes true d room) in
    ap (run (length block)) fits ∙ ap (λ size. run size (true, d)) len

-- The numbers of a header that the decoder accepts.
pub record Header (n total : ℕ) : Type 0 where
  pub some_data : 1 ≤ n
  pub few_data : n ≤ 10
  pub parity : n ≤ total
  pub few_parity : total ≤ 3 * n

module _ (cm : Cm256) (now gid n total bytes i : ℕ) (block : List ℕ) (head : Header n total)
    (below : i < total) (len : length block ≡ bytes) (some_byte : 1 ≤ bytes) where
  -- The casts to a byte lose nothing.
  exact_header : fec_packet gid i n total block ≡ gid ∷ i ∷ n ∷ total ∷ block
  unfolding fec_packet
  exact_header =
      let n8 : n % 2 ^ 8 ≡ n = omega (arith, head.few_data) in
      let t8 : total % 2 ^ 8 ≡ total = omega (arith, head.few_data, head.few_parity) in
      let i8 : i % 2 ^ 8 ≡ i = omega (arith, head.few_data, head.few_parity) in rw (n8, t8, i8) refl

  accepted : (ltb n 1 || ltb 10 n || ltb total n || ltb (3 * n) total || leb total i) ≡ false
  accepted = ground (arith, head.some_data, head.few_data, head.parity, head.few_parity)

  whole_block : (length block == 0) ≡ false
  whole_block = ground arith

  pub add_packet_known :
      (g : FecGroup) (k : ℕ) (d : FecDecoder)
      → find gid d.groups ≡ some g
      → Holds n total bytes k g
      → add_packet cm now (fec_packet gid i n total block) d ≡ receive_block cm gid i n block d
  unfolding add_packet continue_group
  add_packet_known g k d e h =
      let agrees : (not (g.data_count == n)
            || not (g.total_count == total)
            || not (g.block_bytes == length block))
          ≡ false =
        ground (arith, h.count, h.whole, h.size) in
      rw (exact_header, add_packet, accepted, whole_block, e, continue_group, agrees) refl

  pub add_packet_new :
      (d : FecDecoder)
      → find gid d.groups ≡ none
      → has_room bytes true d ≡ true
      → add_packet cm now (fec_packet gid i n total block) d
        ≡ receive_block cm gid i n block
            (record d { groups = insert gid (new_fec_group now n total bytes) d.groups })
  unfolding add_packet open_group
  add_packet_new d e room =
      rw (exact_header, add_packet, accepted, whole_block, e)
        (open_group_fits cm now gid n total bytes i block d len room)
