-- ===== src/ByteBuffer.antt =====
-- common/byte_buffer.h: the buffer that messages are written to and read from.
-- A read that throws ByteBufferReadError returns `none`. Bytes and words are plain numbers;
-- the shifts and masks are written with `/`, `%` and `*`, and `|` of disjoint bits as `+`.
-- The constructors that take a pointer are `from_bytes`: a null pointer with a length is an
-- error of the caller that no call in the program makes.
pub mod Parser
pub mod Refine
pub mod RoundTrip
mod Tests
use vlan_connect.Prelude.{
  ltb, leb, if◌then◌else◌, length, get_or, take, drop, St, ◌>>=◌, ◌>>◌, ℕ, zero, suc, ◌+◌, ◌-◌, ◌*◌,
  ◌/◌, ◌%◌, ◌^◌, Bool, none, some, List, [], ◌∷◌, ◌++◌,
}
use vlan_connect.Protocol.Traffic.{be32}

pub record ByteBuffer : Type 0 where
  pub bytes : List ℕ
  pub read_pos : ℕ

unfoldable pub empty : ByteBuffer
empty = record { bytes = []; read_pos = 0 }

unfoldable pub from_bytes : List ℕ → ByteBuffer
from_bytes d = record { bytes = d; read_pos = 0 }

-- The bytes that each `write` pushes.
abbrev pub u8_bytes : ℕ → List ℕ
u8_bytes v = v ∷ []

abbrev pub u16_bytes : ℕ → List ℕ
u16_bytes v = v / 2 ^ 8 % 256 ∷ v % 256 ∷ []

abbrev pub u32_bytes : ℕ → List ℕ
u32_bytes v = v / 2 ^ 24 % 256 ∷ v / 2 ^ 16 % 256 ∷ v / 2 ^ 8 % 256 ∷ v % 256 ∷ []

-- `for (int shift = 56; shift >= 0; shift -= 8)`, by the rounds left.
abbrev pub shifted_bytes : ℕ → ℕ → List ℕ
shifted_bytes zero v = []
shifted_bytes (suc k) v = v / 2 ^ (8 * k) % 256 ∷ shifted_bytes k v

abbrev pub u64_bytes : ℕ → List ℕ
u64_bytes v = shifted_bytes 8 v

abbrev pub string_bytes : List ℕ → List ℕ
string_bytes s = u16_bytes (length s % 2 ^ 16) ++ s

abbrev push : List ℕ → ByteBuffer → ByteBuffer
push d b = record b { bytes = b.bytes ++ d }

unfoldable pub write_u8 : ℕ → ByteBuffer → ByteBuffer
write_u8 v = push (u8_bytes v)

unfoldable pub write_u16 : ℕ → ByteBuffer → ByteBuffer
write_u16 v = push (u16_bytes v)

unfoldable pub write_u32 : ℕ → ByteBuffer → ByteBuffer
write_u32 v = push (u32_bytes v)

unfoldable pub write_u64 : ℕ → ByteBuffer → ByteBuffer
write_u64 v = push (u64_bytes v)

unfoldable pub write_string : List ℕ → ByteBuffer → ByteBuffer
write_string s b = push s (push (u16_bytes (length s % 2 ^ 16)) b)

unfoldable pub write_bytes : List ℕ → ByteBuffer → ByteBuffer
write_bytes d = push d

unfoldable pub size : ByteBuffer → ℕ
size b = length b.bytes

-- `read_pos` never passes the end, so the difference of the two `size_t` does not wrap.
unfoldable pub remaining : ByteBuffer → ℕ
remaining b = length b.bytes - b.read_pos

unfoldable pub at_end : ByteBuffer → Bool
at_end b = leb (length b.bytes) b.read_pos

unfoldable pub clear : ByteBuffer → ByteBuffer
clear b = record { bytes = []; read_pos = 0 }

abbrev pub Read : Type 0 → Type 0
Read A = St ByteBuffer A

unfoldable pub ensure_readable : ℕ → Read (Unit {0})
unfolding remaining
ensure_readable n b = if ltb (remaining b) n then none else some (tt, b)

-- `m_data[m_readPos + i]`
abbrev byte : ByteBuffer → ℕ → ℕ
byte b i = get_or b.bytes (b.read_pos + i) 0

-- Reads a value off the current position and moves on by `n`.
abbrev consume : {A : Type 0} → ℕ → (ByteBuffer → A) → Read A
consume n value b = some (value b, record b { read_pos = b.read_pos + n })

unfoldable pub read_u8 : Read ℕ
unfolding ensure_readable
read_u8 = do ensure_readable 1; consume 1 (λ b. byte b 0)

unfoldable pub read_u16 : Read ℕ
unfolding ensure_readable
read_u16 = do ensure_readable 2; consume 2 (λ b. byte b 0 * 2 ^ 8 + byte b 1)

unfoldable pub read_u32 : Read ℕ
unfolding ensure_readable
read_u32 = do ensure_readable 4; consume 4 (λ b. be32 (byte b 0) (byte b 1) (byte b 2) (byte b 3))

-- `for (int i = 0; i < 8; ++i) v = (v << 8) | m_data[m_readPos + i]`, by the rounds left.
abbrev pub gather : ByteBuffer → ℕ → ℕ → ℕ → ℕ
gather b zero i v = v
gather b (suc k) i v = gather b k (i + 1) (v * 2 ^ 8 + byte b i)

unfoldable pub read_u64 : Read ℕ
unfolding ensure_readable
read_u64 = do ensure_readable 8; consume 8 (λ b. gather b 8 0 0)

unfoldable pub read_bytes : ℕ → Read (List ℕ)
unfolding ensure_readable
read_bytes n = do ensure_readable n; consume n (λ b. take n (drop b.read_pos b.bytes))

unfoldable pub read_string : Read (List ℕ)
unfolding read_u16 read_bytes
read_string = do n ← read_u16; read_bytes n
