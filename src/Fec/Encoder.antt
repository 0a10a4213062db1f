-- ===== src/Fec/Encoder.antt =====
-- CliFecEncoder (client-cli/src/cli_fec.cpp): packets in groups of ten, followed by parity blocks.
use vlan_connect.Prelude.{
  ltb, leb, ◌==◌, if◌then◌else◌, length, take, drop, replicate, ℕ, zero, suc, ◌+◌, ◌-◌, ◌*◌, ◌%◌,
  ◌^◌, ◌≡◌, Option, none, some, List, [], ◌∷◌, ◌++◌, map,
}
use vlan_connect.ByteBuffer.{u16_bytes}
use vlan_connect.Protocol.Constants.{fec_group_size}
use vlan_connect.Protocol.Policy.{FecMode}
use vlan_connect.Protocol.Budget.{fec_parity_count}

-- The CM256 library: `cm256_encode` fills one buffer with the recovery blocks end to end, and
-- `cm256_decode` rewrites the blocks that it is given, each with its index. `none` is a result
-- other than 0. The numbers are OriginalCount, RecoveryCount and BlockBytes.
pub record Cm256 : Type 0 where
  pub encode : ℕ → ℕ → ℕ → List (List ℕ) → Option (List ℕ)
  pub decode : ℕ → ℕ → ℕ → List (ℕ × List ℕ) → Option (List (ℕ × List ℕ))
  pub length-encode :
      (n m bytes : ℕ) (originals : List (List ℕ)) {recovery : List ℕ}
      → encode n m bytes originals ≡ some recovery
      → length recovery ≡ m * bytes

-- `output` holds what `m_output` was called with, in order.
pub record FecEncoder : Type 0 where
  pub mode : FecMode
  pub group_id : ℕ
  pub max_block_size : ℕ
  pub buffer_start_time : ℕ
  pub buffer : List (List ℕ)
  pub output : List (List ℕ)

pub new_encoder : FecMode → FecEncoder
new_encoder mode = record {
  mode = mode;
  group_id = 0;
  max_block_size = 0;
  buffer_start_time = 0;
  buffer = [];
  output = [];
}

-- The two bytes of the length, the payload, and zeros up to the size of a block.
unfoldable pub padded_block : ℕ → List ℕ → List ℕ
padded_block block_bytes payload =
    u16_bytes (length payload % 2 ^ 16)
    ++ (payload ++ replicate (block_bytes - 2 - length payload) 0)

-- A FecHeader and the block.
unfoldable pub fec_packet : ℕ → ℕ → ℕ → ℕ → List ℕ → List ℕ
fec_packet gid i n total block = gid ∷ i % 2 ^ 8 ∷ n % 2 ^ 8 ∷ total % 2 ^ 8 ∷ block

-- `for (i = 0; i < N; ++i)` over the padded blocks.
unfoldable pub data_packets : ℕ → ℕ → ℕ → ℕ → List (List ℕ) → List (List ℕ)
data_packets gid n total i [] = []
data_packets gid n total i (b ∷ bs) =
    fec_packet gid i n total b ∷ data_packets gid n total (suc i) bs

-- `for (i = 0; i < M; ++i)` over the recovery data, by the rounds left.
unfoldable pub parity_packets : ℕ → ℕ → ℕ → ℕ → List ℕ → ℕ → ℕ → List (List ℕ)
parity_packets gid n m block_bytes recovery zero i = []
parity_packets gid n m block_bytes recovery (suc k) i =
    fec_packet gid (n + i) n (n + m) (take block_bytes (drop (i * block_bytes) recovery))
    ∷ parity_packets gid n m block_bytes recovery k (suc i)

module _ (cm : Cm256) where
  open cm use {encode}

  unfoldable pub group_packets : ℕ → ℕ → ℕ → ℕ → List (List ℕ) → List (List ℕ)
  group_packets gid n m block_bytes padded = elim (encode n m block_bytes padded) [
    | none ↦ data_packets gid n n 0 padded
    | some recovery ↦
        data_packets gid n (n + m) 0 padded ++ parity_packets gid n m block_bytes recovery m 0
  ]

  unfoldable pub flush : FecEncoder → FecEncoder
  flush e =
      let n = length e.buffer in
      let parity = fec_parity_count e.mode n in
      let m = if parity == 0 then 1 else parity in
      let block_bytes = 2 + e.max_block_size in
      let padded = map (padded_block block_bytes) e.buffer in
      if n == 0 then e else record e {
        group_id = (e.group_id + 1) % 2 ^ 8;
        max_block_size = 0;
        buffer = [];
        output = e.output ++ group_packets e.group_id n m block_bytes padded;
      }

  unfoldable pub add_packet : ℕ → List ℕ → FecEncoder → FecEncoder
  add_packet now payload e =
      let e' = record e {
        buffer_start_time = if length e.buffer == 0 then now else e.buffer_start_time;
        buffer = e.buffer ++ payload ∷ [];
        max_block_size =
            if ltb e.max_block_size (length payload) then length payload else e.max_block_size;
      } in
      if leb fec_group_size (length e'.buffer) then flush e' else e'

  unfoldable pub update : ℕ → FecEncoder → FecEncoder
  update now e = if length e.buffer == 0 then e else flush e
