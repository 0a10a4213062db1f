-- ===== src/SecureFrame/Tests.antt =====
-- Runs of the frame cipher with a cipher that copies its input and a hash of zeros.
use vlan_connect.Prelude.{
  replicate, ℕ, ◌≡◌, refl, true, false, none, some, List, [], ◌∷◌, ◌++◌, map, arith,
}
use vlan_connect.SecureFrame.Window.{SecureFrameCipher, is_counter_allowed, record_counter}
use vlan_connect.SecureFrame.Spec.{
  allowed, Tracks, is_counter_allowed-eq-allowed, record_counter-Tracks,
}
use vlan_connect.SecureFrame.Cipher.{
  write_u64_be, read_u64_be, build_nonce, reset, init, encrypt, open_frame, decrypt,
}
use vlan_connect.SecureFrame.Copying.{same_bytes, toy}
use vlan_connect.SecureFrame.Cipher.Receive.{Tracks-fresh, decrypt_all, replay_rejected}
use vlan_connect.SecureFrame.Cipher.Deliver.{
  Matched, encrypt_stream, decrypt_stream, decrypt_stream-encrypt_stream,
}
use vlan_connect.SecureFrame.Cipher.Session.{init_session}

abbrev master_key : List ℕ
master_key = replicate 32 9

abbrev message : List ℕ
message = 1 ∷ 2 ∷ 3 ∷ []

abbrev client_end : SecureFrameCipher
client_end = record reset { initialized = true }

abbrev server_end : SecureFrameCipher
server_end = record reset { initialized = true }

abbrev frame_0 : List ℕ
frame_0 = replicate 8 0 ++ (message ++ replicate 16 0)

abbrev frame_1 : List ℕ
frame_1 = replicate 7 0 ++ (1 ∷ message ++ replicate 16 0)

encrypt_0 : (encrypt toy message [] client_end).0 ≡ frame_0
unfolding encrypt build_nonce write_u64_be toy
encrypt_0 = refl

opened_0 : (decrypt toy frame_0 [] server_end).0 ≡ some message
unfolding decrypt open_frame toy is_counter_allowed read_u64_be same_bytes
opened_0 = refl

replay_rejected_example :
    (decrypt toy frame_0 []
      (decrypt_all toy ((frame_1, []) ∷ []) (decrypt toy frame_0 [] server_end).1)).0
    ≡ none
replay_rejected_example =
    replay_rejected toy server_end [] frame_0 [] message ((frame_1, []) ∷ []) frame_0 []
      (Tracks-fresh server_end refl refl) opened_0 refl

init_session_example :
    decrypt_stream toy
      (encrypt_stream toy (message ∷ [] ∷ []) [] (init toy master_key true "control" reset))
      []
      (init toy master_key false "control" reset)
    ≡ map some (message ∷ [] ∷ [])
init_session_example =
    init_session toy master_key "control" (message ∷ [] ∷ []) [] true (omega arith)

-- A window that has seen the counter 5.
abbrev window_5 : SecureFrameCipher
window_5 = (record_counter server_end 5).1

window_5-Tracks : Tracks window_5 (5 ∷ [])
window_5-Tracks = (record_counter-Tracks server_end [] 5 (Tracks-fresh server_end refl refl) refl).1

record_counter-Tracks_example :
    ((record_counter window_5 3).0 ≡ true) × Tracks (record_counter window_5 3).1 (3 ∷ 5 ∷ [])
record_counter-Tracks_example = record_counter-Tracks window_5 (5 ∷ []) 3 window_5-Tracks refl

is_counter_allowed-eq-allowed_example : is_counter_allowed window_5 5 ≡ allowed (5 ∷ []) 5
is_counter_allowed-eq-allowed_example =
    is_counter_allowed-eq-allowed window_5 (5 ∷ []) 5 window_5-Tracks

abbrev later_client : SecureFrameCipher
later_client = record client_end { send_counter = 7 }

later_client-Matched : Matched later_client server_end
later_client-Matched = record { sends = refl; receives = refl; key = refl; seed = refl }

decrypt_stream-encrypt_stream_example :
    decrypt_stream toy (encrypt_stream toy (message ∷ []) [] later_client) [] server_end
    ≡ map some (message ∷ [])
decrypt_stream-encrypt_stream_example =
    decrypt_stream-encrypt_stream toy (message ∷ []) [] later_client server_end []
      later_client-Matched (Tracks-fresh server_end refl refl) tt (omega arith)
