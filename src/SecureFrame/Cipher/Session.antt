-- ===== src/SecureFrame/Cipher/Session.antt =====
-- Installing the keys of a session on both ends.
use Prim.Native.String.{String}
use vlan_connect.Prelude.{
  length, codes, ℕ, ◌^◌, ◌<◌, ◌≡◌, refl, ap, ◌∙◌, Bool, true, false, not, some, List, [], ◌++◌, map,
  arith,
}
use vlan_connect.SecureFrame.Window.{SecureFrameCipher}
use vlan_connect.SecureFrame.Cipher.{Crypto, uint64_max, reset, derive_secure_key, init, encrypt}
use vlan_connect.SecureFrame.Cipher.Receive.{Tracks-fresh}
use vlan_connect.SecureFrame.Cipher.Deliver.{
  encrypt_stream, decrypt_stream, decrypt_stream-encrypt_stream,
}

module _ (crypto : Crypto) where
  -- Initialising both ends from one master key, whatever the context, from the state that the
  -- constructor leaves: fewer than 2 ^ 64 messages of the client arrive at the server whole and in
  -- order, and likewise those of the server at the client.
  pub init_session :
      (master : List ℕ) (context : String) (ps : List (List ℕ)) (ad : List ℕ) (side : Bool)
      → length ps < 2 ^ 64
      → let sender = init crypto master side context reset in
        let receiver = init crypto master (not side) context reset in
        decrypt_stream crypto (encrypt_stream crypto ps ad sender) ad receiver ≡ map some ps
  unfolding init
  init_session master context ps ad true room =
      decrypt_stream-encrypt_stream crypto ps ad _ _ []
        (record { sends = refl; receives = refl; key = refl; seed = refl })
        (Tracks-fresh (init crypto master false context reset) refl refl) tt (omega arith)
  init_session master context ps ad false room =
      decrypt_stream-encrypt_stream crypto ps ad _ _ []
        (record { sends = refl; receives = refl; key = refl; seed = refl })
        (Tracks-fresh (init crypto master true context reset) refl refl) tt (omega arith)

  same :
      (key master : List ℕ) (context suffix : String)
      → key ≡ derive_secure_key crypto master context suffix
      → crypto.verify32 key (derive_secure_key crypto master context suffix) ≡ true
  unfolding derive_secure_key
  same key master context suffix e =
      let len = crypto.length-keyed_hash master (codes "VLan-" ++ codes context ++ codes suffix) in
      (crypto.verify32_iff key (derive_secure_key crypto master context suffix) (ap length e ∙ len)
          len).1
        e

  -- Reinstalling the session whose two keys an initialised cipher holds changes nothing: neither the send counter nor the
  -- replay window goes back.
  pub init-init :
      (master : List ℕ) (side : Bool) (context : String) (s : SecureFrameCipher)
      → let fresh = init crypto master side context reset in
        s.initialized ≡ true
        → s.send_key ≡ fresh.send_key
        → s.recv_key ≡ fresh.recv_key
        → init crypto master side context s ≡ s
  unfolding init
  init-init master true context s on key rkey = ground (
    arith,
    same s.send_key master context "-c2s-key" key,
    same s.recv_key master context "-s2c-key" rkey,
  )
  init-init master false context s on key rkey = ground (
    arith,
    same s.send_key master context "-s2c-key" key,
    same s.recv_key master context "-c2s-key" rkey,
  )

  -- At the last counter `encrypt` fails closed: it returns no frame and changes nothing.
  pub encrypt_exhausted :
      (plain ad : List ℕ) (s : SecureFrameCipher)
      → s.send_counter ≡ uint64_max
      → encrypt crypto plain ad s ≡ ([], s)
  unfolding encrypt
  encrypt_exhausted plain ad s e = ground arith
