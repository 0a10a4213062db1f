-- ===== src/SecureFrame/Window.antt =====
-- isCounterAllowed and recordCounter of SecureFrameCipher (common/secure_frame.h).
use vlan_connect.Prelude.{
  ltb, leb, if◌then◌else◌, ℕ, zero, suc, ◌+◌, ◌-◌, ◌%◌, Bool, true, false, not, List,
}
use vlan_connect.SecureFrame.Bitmap.{replay_window, zero_bitmap, test_pos, set_pos, clear_pos}

pub record SecureFrameCipher : Type 0 where
  pub send_key : List ℕ
  pub recv_key : List ℕ
  pub send_nonce_seed : List ℕ
  pub recv_nonce_seed : List ℕ
  pub send_counter : ℕ
  pub recv_max_counter : ℕ
  pub recv_started : Bool
  pub initialized : Bool
  pub replay_bitmap : List ℕ

unfoldable pub is_counter_allowed : SecureFrameCipher → ℕ → Bool
is_counter_allowed s ctr =
    if not s.recv_started
    then true
    else if ltb s.recv_max_counter ctr
    then true
    else if leb replay_window (s.recv_max_counter - ctr)
    then false
    else not (test_pos s.replay_bitmap (ctr % replay_window))

-- `for (i = 1; i <= shift; ++i)` clears the bit of `m_recvMaxCounter + i`; by the rounds left.
unfoldable pub clear_range : ℕ → ℕ → ℕ → List ℕ → List ℕ
clear_range zero i m bm = bm
clear_range (suc k) i m bm = clear_range k (i + 1) m (clear_pos bm ((m + i) % replay_window))

-- The bit of `ctr`, tested and set.
unfoldable pub mark : SecureFrameCipher → ℕ → Bool × SecureFrameCipher
mark s ctr =
    if test_pos s.replay_bitmap (ctr % replay_window)
    then (false, s)
    else (true, record s { replay_bitmap = set_pos s.replay_bitmap (ctr % replay_window) })

unfoldable pub record_counter : SecureFrameCipher → ℕ → Bool × SecureFrameCipher
record_counter s ctr =
    let shift = ctr - s.recv_max_counter in
    let moved =
      if leb replay_window shift
      then zero_bitmap
      else clear_range shift 1 s.recv_max_counter s.replay_bitmap in
    if not s.recv_started
    then mark
        (record s { recv_started = true; recv_max_counter = ctr; replay_bitmap = zero_bitmap }) ctr
    else if ltb s.recv_max_counter ctr
    then mark (record s { recv_max_counter = ctr; replay_bitmap = moved }) ctr
    else if leb replay_window (s.recv_max_counter - ctr)
    then (false, s)
    else mark s ctr
