-- ===== src/SecureFrame/Bitmap.antt =====
-- `m_replayBitmap`: 256 bytes, one bit for each counter of the window.
use vlan_connect.Prelude.{
  ◌==◌, if◌then◌else◌, length, get_or, set, replicate, length-set, get_or-set, length-replicate, ℕ,
  zero, suc, ◌/◌, ◌%◌, ◌<◌, ◌≡◌, refl, ◌∙◌, Bool, true, false, List, arith,
}
use vlan_connect.Prelude.Bits.{
  set_bit, clear_bit, test_bit, set_bit-lt, clear_bit-lt, test_bit-set_bit, test_bit-clear_bit,
  test_bit-zero,
}

abbrev pub replay_window : ℕ
replay_window = 2048

abbrev pub zero_bitmap : List ℕ
zero_bitmap = replicate 256 0

-- `m_replayBitmap[pos / 8]`
abbrev pub byte_of : List ℕ → ℕ → ℕ
byte_of bm pos = get_or bm (pos / 8) 0

pub test_pos : List ℕ → ℕ → Bool
test_pos bm pos = test_bit (byte_of bm pos) (pos % 8)

pub set_pos : List ℕ → ℕ → List ℕ
set_pos bm pos = set bm (pos / 8) (set_bit (byte_of bm pos) (pos % 8))

pub clear_pos : List ℕ → ℕ → List ℕ
clear_pos bm pos = set bm (pos / 8) (clear_bit (byte_of bm pos) (pos % 8))

pub record IsBitmap (bm : List ℕ) : Type 0 where
  pub size : length bm ≡ 256
  pub in_range : (i : ℕ) → get_or bm i 0 < 256

get_or-zeros : (n i : ℕ) → ◌≡◌ {A = ℕ} (get_or (replicate n 0) i 0) 0
get_or-zeros zero i = refl
get_or-zeros (suc n) zero = refl
get_or-zeros (suc n) (suc i) = get_or-zeros n i

pub zero_bitmap-IsBitmap : IsBitmap zero_bitmap
zero_bitmap-IsBitmap = record {
  size = length-replicate {A = ℕ} 256 0;
  in_range = λ i. omega (arith, get_or-zeros 256 i);
}

pub test_pos-zero_bitmap : (pos : ℕ) → test_pos zero_bitmap pos ≡ false
unfolding test_pos
test_pos-zero_bitmap pos = rw (get_or-zeros 256 (pos / 8)) (test_bit-zero (pos % 8) (omega arith))

module _ (bm : List ℕ) (valid : IsBitmap bm) (i v : ℕ) (small : v < 256) where
  set-IsBitmap : IsBitmap (set bm i v)
  set-IsBitmap = record {
    size = length-set bm i v ∙ valid.size;
    in_range = λ j. ground (arith, get_or-set bm i j v 0, valid.in_range j);
  }

module _ (bm : List ℕ) (valid : IsBitmap bm) (p : ℕ) where
  pub set_pos-IsBitmap : IsBitmap (set_pos bm p)
  unfolding set_pos
  set_pos-IsBitmap =
      set-IsBitmap bm valid (p / 8) _
        (set_bit-lt (byte_of bm p) (p % 8) (valid.in_range (p / 8)) (omega arith))

  pub clear_pos-IsBitmap : IsBitmap (clear_pos bm p)
  unfolding clear_pos
  clear_pos-IsBitmap =
      set-IsBitmap bm valid (p / 8) _
        (clear_bit-lt (byte_of bm p) (p % 8) (valid.in_range (p / 8)) (omega arith))

  -- Writing the bit of `p` changes the bit of `p` and no other.
  pub test_pos-set_pos :
      (q : ℕ)
      → p < replay_window
      → q < replay_window
      → test_pos (set_pos bm p) q ≡ (if p == q then true else test_pos bm q)
  unfolding set_pos test_pos
  test_pos-set_pos q hp hq = ground (
    arith,
    valid.size,
    get_or-set bm (p / 8) (q / 8) (set_bit (byte_of bm p) (p % 8)) 0,
    test_bit-set_bit (byte_of bm p) (p % 8) (q % 8) (valid.in_range (p / 8)) (omega arith)
        (omega arith),
  )

  pub test_pos-clear_pos :
      (q : ℕ)
      → p < replay_window
      → q < replay_window
      → test_pos (clear_pos bm p) q ≡ (if p == q then false else test_pos bm q)
  unfolding clear_pos test_pos
  test_pos-clear_pos q hp hq = ground (
    arith,
    valid.size,
    get_or-set bm (p / 8) (q / 8) (clear_bit (byte_of bm p) (p % 8)) 0,
    test_bit-clear_bit (byte_of bm p) (p % 8) (q % 8) (valid.in_range (p / 8)) (omega arith)
        (omega arith),
  )
