-- ===== src/Prelude/Bits.antt =====
-- Bit operations on bytes. Their laws are checked on every value.
use Prim.Native.Nat.{bit_and, bit_or}
use vlan_connect.Prelude.Tests.{ltb, ◌==◌, if◌then◌else◌}
use Prim.Native.Nat.{ℕ, zero, suc, ◌<◌, ◌^◌, ◌-◌}
use mathlib.Core.Path.{◌≡◌, refl}
use mathlib.Core.Bool.{Bool, true, false, not, ◌&&◌}
use native.Mathlib.Omega.{arith}

-- A test that passes at each number under a bound.
every_below : (ℕ → Bool) → ℕ → Bool
every_below test zero = true
every_below test (suc bound) = every_below test bound && test bound

every_below_at :
    (test : ℕ → Bool) (bound k : ℕ) → k < bound → every_below test bound ≡ true → test k ≡ true
unfolding every_below
every_below_at test zero k less passes = absurd (omega arith)
every_below_at test (suc bound) k less passes = ground (arith, every_below_at test bound k)

or_test : ℕ → ℕ → Bool
or_test a b = ltb (bit_or a b) 256 && (if bit_or a b == 0 then a == 0 && b == 0 else true)

or_table : every_below (λ a. every_below (λ b. or_test a b) 256) 256 ≡ true
unfolding every_below or_test
or_table = refl

-- The `|` of two bytes is a byte, and is 0 only for two zeros.
pub bit_or_byte :
    (a b : ℕ) → a < 256 → b < 256 → (bit_or a b < 256) × (bit_or a b ≡ 0 → (a ≡ 0) × (b ≡ 0))
unfolding or_test
bit_or_byte a b ha hb =
    let row = every_below_at (λ a. every_below (λ b. or_test a b) 256) 256 a ha or_table in
    let at = every_below_at (λ b. or_test a b) 256 b hb row in
    (ground (arith, at), λ h. ground (arith, at))

-- `b |= 1u << i`, `b &= ~(1u << i)` and `b & (1u << i)` of a byte.
abbrev pub set_bit : ℕ → ℕ → ℕ
set_bit b i = bit_or b (2 ^ i)

abbrev pub clear_bit : ℕ → ℕ → ℕ
clear_bit b i = bit_and b (255 - 2 ^ i)

abbrev pub test_bit : ℕ → ℕ → Bool
test_bit b i = not (bit_and b (2 ^ i) == 0)

beq : Bool → Bool → Bool
beq true y = y
beq false y = not y

beq_sound : (x y : Bool) → beq x y ≡ true → x ≡ y
unfolding beq
beq_sound x y h = ground arith

bits_test : ℕ → ℕ → ℕ → Bool
bits_test b i j =
    ltb (set_bit b i) 256
    && ltb (clear_bit b i) 256
    && beq (test_bit (set_bit b i) j) (if i == j then true else test_bit b j)
    && beq (test_bit (clear_bit b i) j) (if i == j then false else test_bit b j)

bits_table : every_below (λ b. every_below (λ i. every_below (bits_test b i) 8) 8) 256 ≡ true
unfolding every_below bits_test beq
bits_table = refl

bits_at : (b i j : ℕ) → b < 256 → i < 8 → j < 8 → bits_test b i j ≡ true
bits_at b i j hb hi hj =
    let at_b =
      every_below_at (λ b. every_below (λ i. every_below (bits_test b i) 8) 8) 256 b hb
        bits_table in
    let at_i = every_below_at (λ i. every_below (bits_test b i) 8) 8 i hi at_b in
    every_below_at (bits_test b i) 8 j hj at_i

pub set_bit-lt : (b i : ℕ) → b < 256 → i < 8 → set_bit b i < 256
unfolding bits_test
set_bit-lt b i hb hi = ground (arith, bits_at b i i hb hi hi)

pub clear_bit-lt : (b i : ℕ) → b < 256 → i < 8 → clear_bit b i < 256
unfolding bits_test
clear_bit-lt b i hb hi = ground (arith, bits_at b i i hb hi hi)

pub test_bit-set_bit :
    (b i j : ℕ)
    → b < 256
    → i < 8
    → j < 8
    → test_bit (set_bit b i) j ≡ (if i == j then true else test_bit b j)
unfolding bits_test
test_bit-set_bit b i j hb hi hj = beq_sound _ _ (ground (arith, bits_at b i j hb hi hj))

pub test_bit-clear_bit :
    (b i j : ℕ)
    → b < 256
    → i < 8
    → j < 8
    → test_bit (clear_bit b i) j ≡ (if i == j then false else test_bit b j)
unfolding bits_test
test_bit-clear_bit b i j hb hi hj = beq_sound _ _ (ground (arith, bits_at b i j hb hi hj))

zero_table : every_below (λ i. not (test_bit 0 i)) 8 ≡ true
unfolding every_below
zero_table = refl

pub test_bit-zero : (i : ℕ) → i < 8 → test_bit 0 i ≡ false
test_bit-zero i h = ground (arith, every_below_at (λ i. not (test_bit 0 i)) 8 i h zero_table)
