-- ===== src/SecureFrame/Cipher.antt =====
-- init, encrypt and decrypt of SecureFrameCipher (common/secure_frame.h).
pub mod Receive
pub mod Deliver
pub mod Session
use Prim.Native.String.{String}
use vlan_connect.Prelude.{
  ltb, ◌==◌, if◌then◌else◌, length, take, drop, replicate, codes, ℕ, zero, suc, ◌+◌, ◌-◌, ◌*◌, ◌/◌,
  ◌%◌, ◌^◌, ◌≡◌, ◌↔◌, Bool, true, false, not, ◌&&◌, ◌||◌, Option, none, some, List, [], ◌∷◌, ◌++◌,
}
use vlan_connect.SecureFrame.Bitmap.{zero_bitmap}
use vlan_connect.SecureFrame.Window.{SecureFrameCipher, is_counter_allowed, record_counter}

-- Monocypher: keyed BLAKE2b with 32 bytes of output, crypto_verify32, and the AEAD lock and
-- unlock, which undo one another under one key, nonce and associated data.
pub record Crypto : Type 0 where
  pub keyed_hash : List ℕ → List ℕ → List ℕ
  pub verify32 : List ℕ → List ℕ → Bool
  pub lock : List ℕ → List ℕ → List ℕ → List ℕ → List ℕ × List ℕ
  pub unlock : List ℕ → List ℕ → List ℕ → List ℕ → List ℕ → Option (List ℕ)
  pub length-keyed_hash : (k m : List ℕ) → length (keyed_hash k m) ≡ 32
  pub verify32_iff :
      (a b : List ℕ) → length a ≡ 32 → length b ≡ 32 → (verify32 a b ≡ true) ↔ (a ≡ b)
  pub length-lock :
      (k n ad p : List ℕ) → (length (lock k n ad p).0 ≡ length p) × (length (lock k n ad p).1 ≡ 16)
  pub unlock-lock : (k n ad p : List ℕ) → unlock k n ad (lock k n ad p).1 (lock k n ad p).0 ≡ some p

abbrev pub secure_counter_size : ℕ
secure_counter_size = 8

abbrev pub secure_mac_size : ℕ
secure_mac_size = 16

abbrev pub secure_frame_overhead : ℕ
secure_frame_overhead = secure_counter_size + secure_mac_size

abbrev pub uint64_max : ℕ
uint64_max = 2 ^ 64 - 1

-- `for (i = 7; i >= 0; --i) { p[i] = v & 0xFF; v >>= 8; }`, by the rounds left.
pub write_be : ℕ → ℕ → List ℕ → List ℕ
write_be zero v p = p
write_be (suc k) v p = write_be k (v / 2 ^ 8) (v % 2 ^ 8 ∷ p)

unfoldable pub write_u64_be : ℕ → List ℕ
unfolding write_be
write_u64_be v = write_be 8 v []

-- `for (i = 0; i < 8; ++i) v = (v << 8) | p[i]`, in 64 bits; by the rounds left.
pub read_be : ℕ → ℕ → List ℕ → ℕ
read_be zero v p = v
read_be (suc k) v [] = v
read_be (suc k) v (b ∷ p) = read_be k (v * 2 ^ 8 % 2 ^ 64 + b) p

unfoldable pub read_u64_be : List ℕ → ℕ
unfolding read_be
read_u64_be p = read_be 8 0 p

unfoldable pub build_nonce : List ℕ → ℕ → List ℕ
build_nonce seed counter = write_u64_be counter ++ seed

-- The state that the constructor and `reset` leave.
abbrev pub reset : SecureFrameCipher
reset = record {
  send_key = replicate 32 0;
  recv_key = replicate 32 0;
  send_nonce_seed = replicate 16 0;
  recv_nonce_seed = replicate 16 0;
  send_counter = 0;
  recv_max_counter = 0;
  recv_started = false;
  initialized = false;
  replay_bitmap = zero_bitmap;
}

-- `SecureFrameCipher::encrypt` returns the empty vector when it fails.
module _ (crypto : Crypto) where
  open crypto use {keyed_hash, verify32, lock, unlock}

  unfoldable pub derive_secure_key : List ℕ → String → String → List ℕ
  derive_secure_key master context suffix =
      keyed_hash master (codes "VLan-" ++ codes context ++ codes suffix)

  -- `master`, `clientSide` and `context`.
  unfoldable pub init : List ℕ → Bool → String → SecureFrameCipher → SecureFrameCipher
  init master client_side context s =
      let c2s = derive_secure_key master context "-c2s-key" in
      let s2c = derive_secure_key master context "-s2c-key" in
      let c2s_nonce = derive_secure_key master context "-c2s-nonce" in
      let s2c_nonce = derive_secure_key master context "-s2c-nonce" in
      let send_key = if client_side then c2s else s2c in
      let recv_key = if client_side then s2c else c2s in
      if s.initialized && verify32 s.send_key send_key && verify32 s.recv_key recv_key
      then s
      else record reset {
        initialized = true;
        send_key = send_key;
        recv_key = recv_key;
        send_nonce_seed = take 16 (if client_side then c2s_nonce else s2c_nonce);
        recv_nonce_seed = take 16 (if client_side then s2c_nonce else c2s_nonce);
      }

  unfoldable pub encrypt : List ℕ → List ℕ → SecureFrameCipher → List ℕ × SecureFrameCipher
  encrypt plain ad s =
      if not s.initialized || s.send_counter == uint64_max
      then ([], s)
      else let ctr = s.send_counter in
        let (cipher, mac) = lock s.send_key (build_nonce s.send_nonce_seed ctr) ad plain in
        (write_u64_be ctr ++ (cipher ++ mac), record s { send_counter = ctr + 1 })

  -- The AEAD's answer to the cipher text and the MAC that follow the counter.
  unfoldable pub open_frame : List ℕ → List ℕ → SecureFrameCipher → Option (List ℕ)
  open_frame frame ad s =
      let cipher_len = length frame - secure_counter_size - secure_mac_size in
      let rest = drop secure_counter_size frame in
      unlock s.recv_key (build_nonce s.recv_nonce_seed (read_u64_be frame)) ad
        (take secure_mac_size (drop cipher_len rest)) (take cipher_len rest)

  unfoldable pub decrypt : List ℕ → List ℕ → SecureFrameCipher → Option (List ℕ) × SecureFrameCipher
  decrypt frame ad s =
      if not s.initialized || ltb (length frame) secure_frame_overhead
      then (none, s)
      else if not (is_counter_allowed s (read_u64_be frame))
      then (none, s)
      else elim (open_frame frame ad s) [
        | none ↦ (none, s)
        | some plain ↦ (some plain, (record_counter s (read_u64_be frame)).1)
      ]
