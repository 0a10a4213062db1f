-- ===== src/SecureFrame.antt =====
-- SecureFrameCipher of common/secure_frame.h: frame counters, nonces and the replay window.
-- Keys, nonces and frames are lists of bytes. BLAKE2b and the AEAD of Monocypher (3rdparty) are
-- the parameters of `Cipher`; wiping a key is writing zeros.
pub mod Bitmap
pub mod Window
pub mod Spec
pub mod Cipher
pub mod Copying
mod Tests
