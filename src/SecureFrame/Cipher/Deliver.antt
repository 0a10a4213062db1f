-- ===== src/SecureFrame/Cipher/Deliver.antt =====
-- What one end encrypts the other end decrypts, and no nonce is used twice.
use vlan_connect.Prelude.{
  ltb, length, get_or, drop, All, length-append, take-append, take-length, drop-append, ℕ, zero,
  suc, ◌+◌, ◌-◌, ◌^◌, ◌≤◌, ◌<◌, ◌≡◌, refl, sym, ap, ◌∙◌, subst, true, false, Option, some, List, [],
  ◌∷◌, ◌++◌, map, arith,
}
use vlan_connect.SecureFrame.Window.{SecureFrameCipher, is_counter_allowed, mark, record_counter}
use vlan_connect.SecureFrame.Spec.{
  maximum, allowed, Tracks, is_counter_allowed-eq-allowed, not-elem_above, record_counter-Tracks,
}
use vlan_connect.SecureFrame.Cipher.{
  Crypto, uint64_max, write_u64_be, read_u64_be, build_nonce, encrypt, open_frame, decrypt,
}

length-write_u64_be : (v : ℕ) → length (write_u64_be v) ≡ 8
unfolding write_u64_be
length-write_u64_be v = refl

read_u64_be-write_u64_be :
    (v : ℕ) (rest : List ℕ) → v < 2 ^ 64 → read_u64_be (write_u64_be v ++ rest) ≡ v
unfolding read_u64_be write_u64_be
read_u64_be-write_u64_be v rest h = omega arith

-- The receiver holds the keys of the sender.
pub record Matched (s r : SecureFrameCipher) : Type 0 where
  pub sends : s.initialized ≡ true
  pub receives : r.initialized ≡ true
  pub key : s.send_key ≡ r.recv_key
  pub seed : s.send_nonce_seed ≡ r.recv_nonce_seed

maximum-lt : (n : ℕ) (hs : List ℕ) → 0 < n → All (λ h. h < n) hs → maximum hs < n
maximum-lt n [] pos h = pos
maximum-lt n (x ∷ hs) pos h = ground (arith, maximum-lt n hs pos h.1)

allowed_above : (hs : List ℕ) (n : ℕ) → All (λ h. h < n) hs → allowed hs n ≡ true
allowed_above [] n h = refl
allowed_above (x ∷ hs) n h =
    let top = maximum-lt n (x ∷ hs) (omega arith) h in
    ground (arith, top, not-elem_above n (x ∷ hs) top)

record_counter-keys :
    (r : SecureFrameCipher) (c : ℕ)
    → let r' = (record_counter r c).1 in
      (r'.initialized ≡ r.initialized)
      × (r'.recv_key ≡ r.recv_key)
      × (r'.recv_nonce_seed ≡ r.recv_nonce_seed)
unfolding record_counter mark
record_counter-keys r c = ground arith

module _ (crypto : Crypto) where
  open crypto use {lock, length-lock, unlock-lock}

  -- The frame of `encrypt`, when it does not fail.
  frame_of : List ℕ → List ℕ → SecureFrameCipher → List ℕ
  frame_of plain ad s =
      let sealed = lock s.send_key (build_nonce s.send_nonce_seed s.send_counter) ad plain in
      write_u64_be s.send_counter ++ (sealed.0 ++ sealed.1)

  encrypt_lem :
      (plain ad : List ℕ) (s : SecureFrameCipher)
      → s.initialized ≡ true
      → s.send_counter < uint64_max
      → encrypt crypto plain ad s
        ≡ (frame_of plain ad s, record s { send_counter = s.send_counter + 1 })
  unfolding encrypt frame_of
  encrypt_lem plain ad s on room = ground arith

  length-frame_of :
      (plain ad : List ℕ) (s : SecureFrameCipher) → length (frame_of plain ad s) ≡ length plain + 24
  unfolding frame_of
  length-frame_of plain ad s =
      let nonce = build_nonce s.send_nonce_seed s.send_counter in
      let sealed = lock s.send_key nonce ad plain in
      omega (
        arith,
        length-append (write_u64_be s.send_counter) (sealed.0 ++ sealed.1),
        length-append sealed.0 sealed.1,
        length-write_u64_be s.send_counter,
        length-lock s.send_key nonce ad plain,
      )

  open_frame-frame_of :
      (plain ad : List ℕ) (s r : SecureFrameCipher)
      → Matched s r
      → s.send_counter < 2 ^ 64
      → open_frame crypto (frame_of plain ad s) ad r ≡ some plain
  unfolding open_frame frame_of
  open_frame-frame_of plain ad s r m room = cc (
    subst (λ n. drop n (w ++ (sealed.0 ++ sealed.1)) ≡ sealed.0 ++ sealed.1)
        (length-write_u64_be s.send_counter) (drop-append w (sealed.0 ++ sealed.1)),
    cipher_len,
    take-append sealed.0 sealed.1,
    drop-append sealed.0 sealed.1,
    take-length sealed.1 16 (length-lock s.send_key nonce ad plain).1,
    read_u64_be-write_u64_be s.send_counter (sealed.0 ++ sealed.1) room,
    unlock-lock s.send_key nonce ad plain,
    m.key,
    m.seed,
  )
    where
      nonce : List ℕ
      nonce = build_nonce s.send_nonce_seed s.send_counter

      sealed : List ℕ × List ℕ
      sealed = lock s.send_key nonce ad plain

      w : List ℕ
      w = write_u64_be s.send_counter

      cipher_len : length (w ++ (sealed.0 ++ sealed.1)) - 8 - 16 ≡ length sealed.0
      cipher_len = omega (arith, length-frame_of plain ad s, length-lock s.send_key nonce ad plain)

  decrypt_lem :
      (plain ad : List ℕ) (s r : SecureFrameCipher)
      → Matched s r
      → s.send_counter < uint64_max
      → is_counter_allowed r s.send_counter ≡ true
      → decrypt crypto (frame_of plain ad s) ad r
        ≡ (some plain, (record_counter r s.send_counter).1)
  unfolding decrypt
  decrypt_lem plain ad s r m room ok =
      let counter : read_u64_be (frame_of plain ad s) ≡ s.send_counter =
        unfold frame_of in read_u64_be-write_u64_be s.send_counter _ (omega arith) in
      let new : is_counter_allowed r (read_u64_be (frame_of plain ad s)) ≡ true = rw counter ok in
      let long : ltb (length (frame_of plain ad s)) 24 ≡ false =
        ground (arith, length-frame_of plain ad s) in
      ground
        (arith, m.receives, long, new, open_frame-frame_of plain ad s r m (omega arith), counter)

  -- A stream of messages, encrypted in order; and a stream of frames, decrypted in order.
  pub encrypt_stream : List (List ℕ) → List ℕ → SecureFrameCipher → List (List ℕ)
  encrypt_stream [] ad s = []
  encrypt_stream (plain ∷ ps) ad s =
      let (frame, s') = encrypt crypto plain ad s in frame ∷ encrypt_stream ps ad s'

  pub decrypt_stream : List (List ℕ) → List ℕ → SecureFrameCipher → List (Option (List ℕ))
  decrypt_stream [] ad r = []
  decrypt_stream (frame ∷ fs) ad r =
      let (plain, r') = decrypt crypto frame ad r in plain ∷ decrypt_stream fs ad r'

  -- A stream of messages arrives whole and in order, if the sender's next counter and the number of
  -- the messages add up to less than 2 ^ 64, both ends hold the same keys, and every counter the
  -- receiver has seen is below the next one of the sender.
  pub decrypt_stream-encrypt_stream :
      (ps : List (List ℕ)) (ad : List ℕ) (s r : SecureFrameCipher) (hs : List ℕ)
      → Matched s r
      → Tracks r hs
      → All (λ h. h < s.send_counter) hs
      → s.send_counter + length ps ≤ uint64_max
      → decrypt_stream (encrypt_stream ps ad s) ad r ≡ map some ps
  unfolding decrypt_stream encrypt_stream
  decrypt_stream-encrypt_stream [] ad s r hs m t below room = refl
  decrypt_stream-encrypt_stream (p ∷ ps) ad s r hs m t below room =
      let ok = allowed_above hs s.send_counter below in
      let keys = record_counter-keys r s.send_counter in
      rw
        (
          encrypt_lem p ad s m.sends (omega arith),
          decrypt_lem p ad s r m (omega arith)
              (is_counter_allowed-eq-allowed r hs s.send_counter t ∙ ok),
        )
        (ap (◌∷◌ (some p)) (
          decrypt_stream-encrypt_stream ps ad (record s { send_counter = s.send_counter + 1 })
            (record_counter r s.send_counter).1 (s.send_counter ∷ hs)
            (record {
              sends = m.sends;
              receives = keys.0 ∙ m.receives;
              key = m.key ∙ sym keys.1;
              seed = m.seed ∙ sym keys.2;
            })
            (record_counter-Tracks r hs s.send_counter t ok).1 (omega arith, All-weaken hs below)
            (omega arith)))
    where
      All-weaken :
          (hs : List ℕ) → All (λ h. h < s.send_counter) hs → All (λ h. h < s.send_counter + 1) hs
      All-weaken [] h = tt
      All-weaken (x ∷ hs) h = (omega arith, All-weaken hs h.1)

  -- The frame number `i` of a stream carries the counter `send_counter + i`.
  pub encrypt_stream_counters :
      (ps : List (List ℕ)) (ad : List ℕ) (s : SecureFrameCipher) (i : ℕ)
      → s.initialized ≡ true
      → s.send_counter + length ps ≤ uint64_max
      → i < length ps
      → read_u64_be (get_or (encrypt_stream ps ad s) i []) ≡ s.send_counter + i
  unfolding encrypt_stream
  encrypt_stream_counters [] ad s i on room lt = absurd (omega arith)
  encrypt_stream_counters (p ∷ ps) ad s zero on room lt =
      rw (encrypt_lem p ad s on (omega arith))
        (unfold frame_of in read_u64_be-write_u64_be s.send_counter _ (omega arith) ∙ omega arith)
  encrypt_stream_counters (p ∷ ps) ad s (suc i) on room lt =
      rw (encrypt_lem p ad s on (omega arith)) (
        encrypt_stream_counters ps ad (record s { send_counter = s.send_counter + 1 }) i on
          (omega arith) (omega arith)
        ∙ omega arith)
