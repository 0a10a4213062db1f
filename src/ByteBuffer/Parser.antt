-- ===== src/ByteBuffer/Parser.antt =====
-- The contract of the reads: a parser of the list of the bytes that are left.
use vlan_connect.Prelude.{
  ltb, if◌then◌else◌, length, take, drop, St, ◌>>=◌, ℕ, ◌+◌, ◌*◌, ◌^◌, Bool, true, false, none,
  some, List, [], ◌∷◌,
}
use vlan_connect.Protocol.Traffic.{be32}

abbrev pub Parse : Type 0 → Type 0
Parse A = St (List ℕ) A

unfoldable pub p_u8 : Parse ℕ
p_u8 [] = none
p_u8 (a ∷ xs) = some (a, xs)

unfoldable pub p_u16 : Parse ℕ
p_u16 (a ∷ b ∷ xs) = some (a * 2 ^ 8 + b, xs)
p_u16 _ = none

unfoldable pub p_u32 : Parse ℕ
p_u32 (a ∷ b ∷ c ∷ d ∷ xs) = some (be32 a b c d, xs)
p_u32 _ = none

unfoldable pub p_u64 : Parse ℕ
p_u64 (a ∷ b ∷ c ∷ d ∷ e ∷ f ∷ g ∷ h ∷ xs) = some (be32 a b c d * 2 ^ 32 + be32 e f g h, xs)
p_u64 _ = none

unfoldable pub p_bytes : ℕ → Parse (List ℕ)
p_bytes n xs = if ltb (length xs) n then none else some (take n xs, drop n xs)

unfoldable pub p_string : Parse (List ℕ)
unfolding p_u16 p_bytes
p_string = do n ← p_u16; p_bytes n

unfoldable pub p_at_end : List ℕ → Bool
p_at_end [] = true
p_at_end (x ∷ xs) = false
