-- ===== src/Fec/Transfer.antt =====
-- What the decoder makes of the packets that the encoder makes (client-cli/src/cli_fec.cpp).
use mathlib.Core.List.{append-nil, append_assoc}
use native.Mathlib.Nat.{suc-mul, add_comm, mul-le-mul_right}
use vlan_connect.Fec.Decoder as Decoder
use vlan_connect.Fec.Steps.{
  Holds, Took, receive_block-Took, Header, add_packet_known, add_packet_new,
}
use vlan_connect.Prelude.{
  ltb, ◌==◌, if◌then◌else◌, lt→ltb, Option-cases, length, take, drop, replicate, All, length-append,
  take-append, length-take, length-drop, length-replicate, ℕ, zero, suc, ◌+◌, ◌-◌, ◌*◌, ◌/◌, ◌%◌,
  ◌^◌, ◌≤◌, ◌<◌, ◌≡◌, refl, sym, ap, ◌∙◌, subst, inl, inr, true, false, none, some, List, [], ◌∷◌,
  ◌++◌, map, arith,
}
use vlan_connect.Fec.Decoder.{
  FecGroup, FecDecoder, block_payload, emit_original_block, has_room, new_fec_group, receive_block,
  add_packet,
}
use vlan_connect.Fec.Encoder.{
  Cm256, FecEncoder, padded_block, fec_packet, data_packets, parity_packets, group_packets, flush,
}
use vlan_connect.Protocol.Policy.{
  FecMode, fec_none, fec_10, fec_30, fec_50, fec_70, fec_100, fec_200,
}
use vlan_connect.Protocol.Budget.{fec_parity_count}
use vlan_connect.Prelude.Map.{find, insert, find-insert, total, set_mem}
use vlan_connect.Protocol.Constants.{fec_max_buffered_bytes, fec_max_active_groups, fec_group_size}
use vlan_connect.ByteBuffer.{clear}

-- A payload that one packet of the tunnel can hold.
abbrev pub Fits : ℕ → List ℕ → Type 0
Fits most payload = (1 ≤ length payload) × (length payload ≤ most) × (length payload < 2 ^ 16)

length-padded_block :
    (most : ℕ) (p : List ℕ) → length p ≤ most → length (padded_block (2 + most) p) ≡ 2 + most
unfolding padded_block
length-padded_block most p h = omega (
  arith,
  length-append p (replicate (2 + most - 2 - length p) 0),
  length-replicate {A = ℕ} (2 + most - 2 - length p) 0,
)

-- The receiver reads back from a padded block the payload that the sender put into it.
pub block_payload-padded_block :
    (most : ℕ) (p : List ℕ)
    → Fits most p
    → block_payload (padded_block (2 + most) p) (2 + most) ≡ p ∷ []
unfolding block_payload padded_block
block_payload-padded_block most p (some_byte, within, short) =
    let len : length p % 2 ^ 16 / 2 ^ 8 % 256 * 2 ^ 8 + length p % 2 ^ 16 % 256 ≡ length p =
      omega arith in
    rw (len, lt→ltb 0 (length p) some_byte, take-append p) (ground arith)

most_fit : (most : ℕ) (p : List ℕ) → Fits most p → length p ≤ most
most_fit most p (some_byte, within, short) = within

has_room_new :
    (incoming : ℕ) (d : FecDecoder)
    → length d.groups < fec_max_active_groups
    → d.buffered_bytes + incoming ≤ fec_max_buffered_bytes
    → has_room incoming true d ≡ true
unfolding has_room
has_room_new incoming d few h = ground arith

new_group-Holds :
    (now n total bytes : ℕ) → 1 ≤ n → Holds n total bytes 0 (new_fec_group now n total bytes)
unfolding find set_mem
new_group-Holds now n total bytes h = record {
  count = refl;
  whole = refl;
  size = refl;
  finished = ground arith;
  stored = refl;
  next_free = λ k le. refl;
  emitted = refl;
  not_emitted = λ k le. refl;
}

-- The packets of a list, one after the other; `now` is the time.
pub deliver : Cm256 → ℕ → List (List ℕ) → FecDecoder → FecDecoder
deliver cm now [] d = d
deliver cm now (p ∷ ps) d = deliver cm now ps (Decoder.add_packet cm now p d)

-- The decoder has put out what it was given, and the group stands at its end.
pub record Finished (gid n total bytes : ℕ) (payloads : List (List ℕ)) (d d' : FecDecoder)
    : Type 0 where
  pub output : d'.output ≡ d.output ++ payloads
  pub group : FecGroup
  pub found : find gid d'.groups ≡ some group
  pub holds : Holds n total bytes n group

module _ (cm : Cm256) (now gid n total most : ℕ) (head : Header n total) where
  emit_padded_block :
      (p : List ℕ) → Fits most p → emit_original_block (padded_block (2 + most) p) ≡ p ∷ []
  unfolding emit_original_block
  emit_padded_block p fit =
      let not_short : ltb (2 + most) 2 ≡ false = ground arith in
      rw (emit_original_block, length-padded_block most p (most_fit most p fit), not_short)
        (block_payload-padded_block most p fit)

  packet-Took :
      (i : ℕ) (p : List ℕ) (g : FecGroup) (d : FecDecoder)
      → i < n
      → Fits most p
      → Holds n total (2 + most) i g
      → find gid d.groups ≡ some g
      → d.buffered_bytes + (2 + most) ≤ fec_max_buffered_bytes
      → Took gid n total
          (2 + most)
          i
          (padded_block (2 + most) p)
          d
          (Decoder.add_packet cm now (fec_packet gid i n total (padded_block (2 + most) p)) d)
  packet-Took i p g d more fit h e room =
      let len = length-padded_block most p (most_fit most p fit) in
      rw
        (add_packet_known cm now gid n total (2 + most) i (padded_block (2 + most) p) head
          (omega (arith, head.parity)) len (omega arith) g i d e h)
        (receive_block-Took cm gid n total (2 + most) i (padded_block (2 + most) p) g more len h d e
          room)

  deliver-data_packets :
      (i : ℕ) (ps : List (List ℕ)) (g : FecGroup) (d : FecDecoder)
      → i + length ps ≡ n
      → All (Fits most) ps
      → Holds n total (2 + most) i g
      → find gid d.groups ≡ some g
      → d.buffered_bytes + length ps * (2 + most) ≤ fec_max_buffered_bytes
      → Finished gid n total
          (2 + most)
          ps
          d
          (deliver cm now (data_packets gid n total i (map (padded_block (2 + most)) ps)) d)
  unfolding deliver data_packets
  deliver-data_packets i [] g d end fits h e room = record {
    output = sym (append-nil d.output);
    group = g;
    found = e;
    holds = subst (λ k. Holds n total (2 + most) k g) (omega arith) h;
  }
  deliver-data_packets i (p ∷ ps) g d end fits h e room =
      let one_more : length (p ∷ ps) * (2 + most) ≡ (2 + most) + length ps * (2 + most) =
        suc-mul (length ps) (2 + most) ∙ add_comm (length ps * (2 + most)) (2 + most) in
      let took = packet-Took i p g d (omega arith) fits.0 h e (omega (arith, one_more)) in
      let d' = Decoder.add_packet cm now (fec_packet gid i n total (padded_block (2 + most) p)) d in
      let rest =
        deliver-data_packets (suc i) ps took.group d' (omega arith) fits.1 took.holds took.found
          (omega (arith, one_more, took.counted)) in
      record {
        output =
            rest.output
            ∙ ap (λ o. o ++ ps) (took.output ∙ ap (λ o. d.output ++ o) (emit_padded_block p fits.0))
            ∙ append_assoc d.output (p ∷ []) ps;
        group = rest.group;
        found = rest.found;
        holds = rest.holds;
      }

  -- The first packet of a group that the decoder does not know opens it.
  deliver_open :
      (p : List ℕ) (ps : List (List ℕ)) (d : FecDecoder)
      → suc (length ps) ≡ n
      → All (Fits most) (p ∷ ps)
      → find gid d.groups ≡ none
      → length d.groups < fec_max_active_groups
      → d.buffered_bytes + n * (2 + most) ≤ fec_max_buffered_bytes
      → Finished gid n total
          (2 + most)
          (p ∷ ps)
          d
          (deliver cm now (data_packets gid n total 0 (map (padded_block (2 + most)) (p ∷ ps))) d)
  unfolding deliver data_packets
  deliver_open p ps d end fits e few room =
      let block = padded_block (2 + most) p in
      let g = new_fec_group now n total (2 + most) in
      let d0 : FecDecoder = record d { groups = insert gid g d.groups } in
      let len = length-padded_block most p (most_fit most p fits.0) in
      let found : find gid d0.groups ≡ some g = ground (arith, find-insert gid gid g d.groups) in
      let begun = new_group-Holds now n total (2 + most) head.some_data in
      let below : 0 < total = omega (arith, head.some_data, head.parity) in
      let one_more = suc-mul (length ps) (2 + most) in
      let rows : n * (2 + most) ≡ suc (length ps) * (2 + most) =
        ap (λ k. k * (2 + most)) (sym end) in
      let space : has_room (2 + most) true d ≡ true =
        has_room_new (2 + most) d few (omega (arith, one_more, rows)) in
      let same : Decoder.add_packet cm now (fec_packet gid 0 n total block) d
          ≡ Decoder.add_packet cm now (fec_packet gid 0 n total block) d0 =
        add_packet_new cm now gid n total (2 + most) 0 block head below len (omega arith) d e space
        ∙ sym (
            add_packet_known cm now gid n total (2 + most) 0 block head below len (omega arith) g 0
              d0 found begun) in
      let rest =
        deliver-data_packets 0 (p ∷ ps) g d0 (omega arith) fits begun found (omega (arith, rows)) in
      subst
        (λ d1.
          Finished gid n total (2 + most) (p ∷ ps) d
            (deliver cm now (data_packets gid n total 1 (map (padded_block (2 + most)) ps)) d1))
        (sym same)
        (record {
          output = rest.output;
          group = rest.group;
          found = rest.found;
          holds = rest.holds;
        })

receive_block_done :
    (cm : Cm256) (gid idx n : ℕ) (block : List ℕ) (g : FecGroup) (d : FecDecoder)
    → find gid d.groups ≡ some g
    → g.decoded ≡ true
    → receive_block cm gid idx n block d ≡ d
unfolding receive_block
receive_block_done cm gid idx n block g d e done = ground arith

-- The blocks of a finished group change nothing.
module _ (cm : Cm256) (now gid n m bytes : ℕ) (recovery : List ℕ) where
  deliver-parity_packets :
      (head : Header n (n + m))
      → 1 ≤ bytes
      → length recovery ≡ m * bytes
      → (k i : ℕ) (g : FecGroup) (d : FecDecoder) → k + i ≤ m
      → find gid d.groups ≡ some g
      → Holds n (n + m) bytes n g
      → deliver cm now (parity_packets gid n m bytes recovery k i) d ≡ d
  unfolding deliver parity_packets
  deliver-parity_packets head some_byte len zero i g d less e h = refl
  deliver-parity_packets head some_byte len (suc k) i g d less e h =
      let block = take bytes (drop (i * bytes) recovery) in
      let inside : suc i * bytes ≤ m * bytes = mul-le-mul_right bytes (omega arith) in
      let one_more = suc-mul i bytes in
      let rest = length-drop (i * bytes) recovery in
      let size =
        length-take bytes (drop (i * bytes) recovery)
          (omega (arith, one_more, inside, rest, len)) in
      let done : g.decoded ≡ true = ground (arith, h.finished) in
      let ignored : Decoder.add_packet cm now (fec_packet gid (n + i) n (n + m) block) d ≡ d =
        add_packet_known cm now gid n (n + m) bytes (n + i) block head (omega arith) size some_byte
          g n d e h
        ∙ receive_block_done cm gid (n + i) n block g d e done in
      ap (deliver cm now (parity_packets gid n m bytes recovery k (suc i))) ignored
      ∙ deliver-parity_packets head some_byte len k (suc i) g d (omega arith) e h

deliver-append :
    (cm : Cm256) (now : ℕ) (xs ys : List (List ℕ)) (d : FecDecoder)
    → deliver cm now (xs ++ ys) d ≡ deliver cm now ys (deliver cm now xs d)
unfolding deliver
deliver-append cm now [] ys d = refl
deliver-append cm now (x ∷ xs) ys d = deliver-append cm now xs ys (Decoder.add_packet cm now x d)

deliver-group_packets :
    (cm : Cm256) (now gid m most : ℕ) (payloads : List (List ℕ)) (d : FecDecoder)
    → 1 ≤ length payloads
    → length payloads ≤ 10
    → 1 ≤ m
    → m ≤ 2 * length payloads
    → All (Fits most) payloads
    → find gid d.groups ≡ none
    → length d.groups < fec_max_active_groups
    → d.buffered_bytes + length payloads * (2 + most) ≤ fec_max_buffered_bytes
    → (deliver cm now
        (group_packets cm gid
          (length payloads)
          m
          (2 + most)
          (map (padded_block (2 + most)) payloads))
        d).output
      ≡ d.output ++ payloads
unfolding group_packets
deliver-group_packets cm now gid m most [] d some_data few_data sp fp fits free few room =
    absurd (omega arith)
deliver-group_packets cm now gid m most (p ∷ ps) d some_data few_data sp fp fits free few room =
    let n = suc (length ps) in
    let padded = map (padded_block (2 + most)) (p ∷ ps) in
    elim (Option-cases (cm.encode n m (2 + most) padded)) [
      | inl failed ↦
          let head : Header n n = omega arith in
          rw (group_packets, failed)
            (deliver_open cm now gid n n most head p ps d refl fits free few room).output
      | inr (recovery, made) ↦
          let head : Header n (n + m) = omega arith in
          let end = deliver_open cm now gid n (n + m) most head p ps d refl fits free few room in
          let extra =
            deliver-parity_packets cm now gid n m (2 + most) recovery head (omega arith)
              (cm.length-encode n m (2 + most) padded made) m 0 end.group _ (omega arith) end.found
              end.holds in
          rw (group_packets, made, deliver-append cm now) (ap (λ d1. d1.output) extra ∙ end.output)
    ]

parity_bounds :
    (mode : FecMode) (n : ℕ)
    → 1 ≤ n
    → let parity = fec_parity_count mode n in
      let m = if parity == 0 then 1 else parity in (1 ≤ m) × (m ≤ 2 * n)
unfolding fec_parity_count
parity_bounds fec_none n h = omega arith
parity_bounds fec_10 n h = ground arith
parity_bounds fec_30 n h = ground arith
parity_bounds fec_50 n h = ground arith
parity_bounds fec_70 n h = ground arith
parity_bounds fec_100 n h = ground arith
parity_bounds fec_200 n h = ground arith

-- What the encoder flushes of a group, whether the library made parity blocks for it or failed,
-- gives at a decoder that has room for the group exactly the payloads that went in, in order, when
-- no packet is lost. The payloads have 1 to 65535 bytes and there are 1 to 10 of them; the decoder
-- has no group of that number.
pub deliver-flush :
    (cm : Cm256) (now : ℕ) (e : FecEncoder) (d : FecDecoder)
    → e.output ≡ []
    → 1 ≤ length e.buffer
    → length e.buffer ≤ fec_group_size
    → All (Fits e.max_block_size) e.buffer
    → find e.group_id d.groups ≡ none
    → length d.groups < fec_max_active_groups
    → d.buffered_bytes + length e.buffer * (2 + e.max_block_size) ≤ fec_max_buffered_bytes
    → (deliver cm now (flush cm e).output d).output ≡ d.output ++ e.buffer
unfolding flush
deliver-flush cm now e d clear some_data few_data fits free few room =
    let n = length e.buffer in
    let not_empty : (n == 0) ≡ false = ground arith in
    let parity = fec_parity_count e.mode n in
    let m = if parity == 0 then 1 else parity in
    let (some_parity, few_parity) = parity_bounds e.mode n some_data in
    rw (not_empty, clear)
      (deliver-group_packets cm now e.group_id m e.max_block_size e.buffer d some_data few_data
        some_parity few_parity fits free few room)
