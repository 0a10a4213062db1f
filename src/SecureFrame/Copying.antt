-- ===== src/SecureFrame/Copying.antt =====
-- The functions that SecureFrameCipher (common/secure_frame.h) takes from Monocypher, by a cipher that
-- copies its input and a hash of zeros: they meet the laws.
use vlan_connect.Prelude.{
  ◌==◌, if◌then◌else◌, replicate, ℕ, ◌≡◌, refl, ◌↔◌, Bool, true, false, ◌&&◌, none, some, List, [],
  ◌∷◌, arith,
}
use vlan_connect.SecureFrame.Cipher.{Crypto}

unfoldable pub same_bytes : List ℕ → List ℕ → Bool
same_bytes [] [] = true
same_bytes [] (b ∷ ys) = false
same_bytes (a ∷ xs) [] = false
same_bytes (a ∷ xs) (b ∷ ys) = a == b && same_bytes xs ys

pub same_bytes_iff : (xs ys : List ℕ) → (same_bytes xs ys ≡ true) ↔ (xs ≡ ys)
unfolding same_bytes
same_bytes_iff [] [] = ((λ e. refl), (λ e. refl))
same_bytes_iff [] (b ∷ ys) = ((λ e. cc), (λ e. cc))
same_bytes_iff (a ∷ xs) [] = ((λ e. cc), (λ e. cc))
same_bytes_iff (a ∷ xs) (b ∷ ys) = (
  (λ e. ground (arith, (same_bytes_iff xs ys).0)),
  (λ e. ground (arith, (same_bytes_iff xs ys).1)),
)

unfoldable pub toy : Crypto
unfolding same_bytes
toy = record {
  keyed_hash = λ k m. replicate 32 0;
  verify32 = same_bytes;
  lock = λ k n ad p. (p, replicate 16 0);
  unlock = λ k n ad mac c. if same_bytes mac (replicate 16 0) then some c else none;
  length-keyed_hash = λ k m. refl;
  verify32_iff = λ a b ha hb. same_bytes_iff a b;
  length-lock = λ k n ad p. (refl, refl);
  unlock-lock = λ k n ad p. refl;
}
