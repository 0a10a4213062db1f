-- ===== src/SecureFrame/Cipher/Receive.antt =====
-- No frame is accepted twice.
use vlan_connect.Prelude.{
  ltb, Bool-cases, Option-cases, length, ℕ, ◌≡◌, refl, sym, ◌∙◌, ◌⊎◌, inl, inr, true, false, not,
  ◌||◌, none, some, List, [], ◌∷◌, arith,
}
use vlan_connect.SecureFrame.Bitmap.{zero_bitmap, zero_bitmap-IsBitmap}
use vlan_connect.SecureFrame.Window.{SecureFrameCipher, is_counter_allowed}
use vlan_connect.SecureFrame.Spec.{
  elem, allowed, Tracks, is_counter_allowed-eq-allowed, record_counter-Tracks,
}
use vlan_connect.SecureFrame.Cipher.{
  Crypto, secure_frame_overhead, read_u64_be, open_frame, decrypt,
}

-- A receiver that has opened nothing yet.
pub Tracks-fresh :
    (s : SecureFrameCipher) → s.recv_started ≡ false → s.replay_bitmap ≡ zero_bitmap → Tracks s []
Tracks-fresh s off zeros = record {
  valid = rw zeros zero_bitmap-IsBitmap;
  fresh = λ _. refl;
  started = λ on. cc;
  top = λ on. cc;
  window = λ on. cc;
}

module _ (crypto : Crypto) where
  -- A frame that fails leaves the receiver as it was. A frame that is opened had a counter that
  -- the history allows, and the window then tracks the history with it.
  pub decrypt-Tracks :
      (frame ad : List ℕ) (s : SecureFrameCipher) (hs : List ℕ)
      → Tracks s hs
      → (((decrypt crypto frame ad s).0 ≡ none) × ((decrypt crypto frame ad s).1 ≡ s))
        ⊎ ((allowed hs (read_u64_be frame) ≡ true)
            × Tracks (decrypt crypto frame ad s).1 (read_u64_be frame ∷ hs))
  unfolding decrypt
  decrypt-Tracks frame ad s hs t =
      elim (Bool-cases (not s.initialized || ltb (length frame) secure_frame_overhead)) [
        | inl refused ↦ inl (rw refused, rw refused)
        | inr long ↦ elim (Bool-cases (is_counter_allowed s (read_u64_be frame))) [
          | inr old ↦ inl (rw (long, old), rw (long, old))
          | inl new ↦ elim (Option-cases (open_frame crypto frame ad s)) [
            | inl bad ↦ inl (rw (long, new, bad), rw (long, new, bad))
            | inr (plain, good) ↦
                let fits = sym (is_counter_allowed-eq-allowed s hs (read_u64_be frame) t) ∙ new in
                inr (
                  fits,
                  rw (long, new, good) (record_counter-Tracks s hs (read_u64_be frame) t fits).1,
                )
          ]
        ]
      ]

  -- A frame whose counter was accepted before is refused, whatever it holds.
  decrypt_seen :
      (frame ad : List ℕ) (s : SecureFrameCipher) (hs : List ℕ)
      → Tracks s hs
      → elem (read_u64_be frame) hs ≡ true
      → (decrypt crypto frame ad s).0 ≡ none
  unfolding decrypt
  decrypt_seen frame ad s hs t seen =
      let stale : is_counter_allowed s (read_u64_be frame) ≡ false =
        is_counter_allowed-eq-allowed s hs (read_u64_be frame) t ∙ allowed_seen hs seen in
      ground (arith, stale)
    where
      allowed_seen :
          (hs : List ℕ)
          → elem (read_u64_be frame) hs ≡ true
          → allowed hs (read_u64_be frame) ≡ false
      allowed_seen [] e = cc
      allowed_seen (h ∷ hs) e = rw e

  -- The state after a sequence of frames, each with its associated data.
  pub decrypt_all : List (List ℕ × List ℕ) → SecureFrameCipher → SecureFrameCipher
  decrypt_all [] s = s
  decrypt_all ((frame, ad) ∷ fs) s = decrypt_all fs (decrypt crypto frame ad s).1

  decrypt_all-Tracks :
      (fs : List (List ℕ × List ℕ)) (s : SecureFrameCipher) (hs : List ℕ) (c : ℕ)
      → Tracks s hs
      → elem c hs ≡ true
      → (hs' : List ℕ) × Tracks (decrypt_all fs s) hs' × (elem c hs' ≡ true)
  unfolding decrypt_all
  decrypt_all-Tracks [] s hs c t e = (hs, t, e)
  decrypt_all-Tracks ((frame, ad) ∷ fs) s hs c t e = elim (decrypt-Tracks frame ad s hs t) [
    | inl (_, same) ↦ decrypt_all-Tracks fs (decrypt crypto frame ad s).1 hs c (rw same t) e
    | inr (_, t') ↦
        decrypt_all-Tracks fs (decrypt crypto frame ad s).1 (read_u64_be frame ∷ hs) c t'
          (ground arith)
  ]

  -- Once a receiver whose window tracks a history has opened a frame, it opens no later frame with
  -- that counter, whatever frames arrive in between and in whatever order.
  pub replay_rejected :
      (s : SecureFrameCipher) (hs : List ℕ) (frame ad plain : List ℕ)
      (between : List (List ℕ × List ℕ)) (again ad' : List ℕ)
      → Tracks s hs
      → (decrypt crypto frame ad s).0 ≡ some plain
      → read_u64_be again ≡ read_u64_be frame
      → (decrypt crypto again ad' (decrypt_all between (decrypt crypto frame ad s).1)).0 ≡ none
  replay_rejected s hs frame ad plain between again ad' t opened same =
      elim (decrypt-Tracks frame ad s hs t) [
        | inl (failed, _) ↦ cc
        | inr (_, t') ↦
            let (hs', tracked, kept) =
              decrypt_all-Tracks between (decrypt crypto frame ad s).1 (read_u64_be frame ∷ hs)
                (read_u64_be frame) t' (ground arith) in
            decrypt_seen again ad' (decrypt_all between (decrypt crypto frame ad s).1) hs' tracked
              (rw same kept)
      ]
