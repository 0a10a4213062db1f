-- ===== src/Fec/Tests.antt =====
-- The FEC theorems at concrete packets, and runs of the encoder and the decoder.
use vlan_connect.Prelude.{
  leb, length, replicate, length-replicate, ℕ, ◌*◌, ◌≡◌, refl, subst, true, false, Option, none,
  some, List, [], ◌∷◌, arith,
}
use vlan_connect.Prelude.Map.{find, insert, set_insert}
use vlan_connect.Protocol.Constants.{fec_max_buffered_bytes}
use vlan_connect.Protocol.Policy.{fec_50}
use vlan_connect.Fec.Decoder.{
  FecGroup, FecDecoder, new_decoder, emit_original_block, blocks_bytes, must_evict, has_room,
  ensure_capacity, put_block, try_decode, add_packet, cleanup,
}
use vlan_connect.Fec.Decoder as Decoder
use vlan_connect.Fec.Encoder.{Cm256, FecEncoder, flush}
use vlan_connect.Fec.Bytes.{groups_bytes, IsValid}
use vlan_connect.Fec.Capacity.{Keeps, ensure_capacity_lem}
use vlan_connect.Fec.Receive.{add_packet-IsValid, fresh_group, cleanup_lem}
use vlan_connect.Fec.Transfer.{deliver, deliver-flush}

abbrev zeros : ℕ → ℕ → ℕ → List (List ℕ) → Option (List ℕ)
zeros n m bytes originals = some (replicate (m * bytes) 0)

length-zeros :
    (n m bytes : ℕ) (originals : List (List ℕ)) {recovery : List ℕ}
    → zeros n m bytes originals ≡ some recovery
    → length recovery ≡ m * bytes
length-zeros n m bytes originals {recovery} e =
    let same : replicate (m * bytes) 0 ≡ recovery = cc in
    subst (λ r. length r ≡ m * bytes) same (length-replicate (m * bytes) 0)

-- A library whose recovery blocks are zeros, and which gives the blocks back as they are.
abbrev plain_cm : Cm256
plain_cm = record {
  encode = zeros;
  decode = λ n m bytes blocks. some blocks;
  length-encode = length-zeros;
}

abbrev two_payloads : List (List ℕ)
two_payloads = (1 ∷ 2 ∷ 3 ∷ []) ∷ (4 ∷ []) ∷ []

abbrev full_encoder : FecEncoder
full_encoder = record {
  mode = fec_50;
  group_id = 7;
  max_block_size = 3;
  buffer_start_time = 0;
  buffer = two_payloads;
  output = [];
}

abbrev half_group : FecGroup
half_group = record {
  data_count = 2;
  total_count = 3;
  block_bytes = 5;
  create_time = 100;
  decoded = false;
  blocks = (0, 0 ∷ 3 ∷ 1 ∷ 2 ∷ 3 ∷ []) ∷ [];
  emitted_originals = 0 ∷ [];
}

abbrev busy_decoder : FecDecoder
busy_decoder = record { groups = (7, half_group) ∷ []; buffered_bytes = 5; output = [] }

busy_decoder-IsValid : IsValid busy_decoder
unfolding groups_bytes blocks_bytes
busy_decoder-IsValid = omega arith

-- The last original block of a group puts out its payload.
second_packet :
    (Decoder.add_packet plain_cm 120 (7 ∷ 1 ∷ 2 ∷ 3 ∷ 0 ∷ 1 ∷ 4 ∷ 0 ∷ 0 ∷ []) busy_decoder).output
    ≡ (4 ∷ []) ∷ []
unfolding Decoder.add_packet ensure_capacity must_evict emit_original_block find insert set_insert
    Decoder.put_block Decoder.try_decode
second_packet = refl

bad_header :
    Decoder.add_packet plain_cm 120 (7 ∷ 3 ∷ 2 ∷ 3 ∷ 0 ∷ 1 ∷ []) busy_decoder ≡ busy_decoder
unfolding Decoder.add_packet
bad_header = refl

ensure_capacity_lem_example :
    let (ok, d') = ensure_capacity 9 true busy_decoder in
    IsValid d'
    × (d'.output ≡ [])
    × (ok ≡ leb 9 fec_max_buffered_bytes)
    × (ok ≡ true → has_room 9 true d' ≡ true)
    × Keeps busy_decoder d'
ensure_capacity_lem_example = ensure_capacity_lem 9 true busy_decoder busy_decoder-IsValid

add_packet-IsValid_example :
    IsValid (Decoder.add_packet plain_cm 120 (7 ∷ 1 ∷ 2 ∷ 3 ∷ 0 ∷ 1 ∷ 4 ∷ 0 ∷ 0 ∷ []) busy_decoder)
add_packet-IsValid_example =
    add_packet-IsValid plain_cm 120 (7 ∷ 1 ∷ 2 ∷ 3 ∷ 0 ∷ 1 ∷ 4 ∷ 0 ∷ 0 ∷ []) busy_decoder
      busy_decoder-IsValid

cleanup_lem_example :
    let d' = cleanup 601 busy_decoder in
    IsValid d'
    × (d'.output ≡ [])
    × ((k : ℕ) → find k d'.groups ≡ fresh_group 601 (find k busy_decoder.groups))
cleanup_lem_example = cleanup_lem 601 busy_decoder busy_decoder-IsValid

new_decoder_free : (gid : ℕ) → find gid new_decoder.groups ≡ none
unfolding find
new_decoder_free gid = refl

deliver-flush_example :
    (deliver plain_cm 50 (flush plain_cm full_encoder).output new_decoder).output ≡ two_payloads
deliver-flush_example =
    deliver-flush plain_cm 50 full_encoder new_decoder refl (omega arith) (omega arith)
      (omega arith) (new_decoder_free 7) (omega arith) (omega arith)
