-- ===== src/SignalMessage/Agree.antt =====
-- The two validators of relay data, of the server and of the frames that clients receive.
use vlan_connect.Prelude.{
  ltb, ◌==◌, if◌then◌else◌, length, ℕ, ◌<◌, ◌≡◌, refl, sym, ◌∙◌, Bool, false, not, ◌&&◌, ◌||◌, List,
  [], ◌∷◌, arith,
}
use vlan_connect.Protocol.Traffic.{be32}
use vlan_connect.Room.Leases.{is_some}
use vlan_connect.SignalMessage.Cursor.{
  new_cursor, set_error, require_bytes, field_u8, field_u32, skip_bytes, reject_if, finish_field,
}
use vlan_connect.SignalMessage.Checks.{relay_data}
use vlan_connect.Protocol.Constants.{msg_tcp_relay_data}
use vlan_connect.ByteBuffer.Parser.{p_u8, p_u32}
use vlan_connect.ClientMessage.{verdict, validate_client_signal_payload}
use vlan_connect.ClientMessage.Verdict.{check-Refines}
use vlan_connect.ClientMessage.Short.{parse_relay_data, read_relay_data-Refines}

-- What both of them test.
abbrev good : ℕ → ℕ → ℕ → Bool
good source destination class =
    not (source == 0) && not (destination == 0) && (class == 1 || class == 2)

cursor_test :
    (a b c d e f g h i : ℕ) (rest : List ℕ)
    → is_some (relay_data (new_cursor (a ∷ b ∷ c ∷ d ∷ e ∷ f ∷ g ∷ h ∷ i ∷ rest))).0
      ≡ good (be32 a b c d) (be32 e f g h) i
unfolding relay_data field_u32 field_u8 require_bytes reject_if set_error skip_bytes finish_field
cursor_test a b c d e f g h i rest = ground arith

server_test :
    (a b c d e f g h i : ℕ) (rest : List ℕ)
    → verdict (parse_relay_data (a ∷ b ∷ c ∷ d ∷ e ∷ f ∷ g ∷ h ∷ i ∷ rest))
      ≡ good (be32 a b c d) (be32 e f g h) i
unfolding parse_relay_data p_u32 p_u8
server_test a b c d e f g h i rest = refl

too_short : (bytes : List ℕ) → length bytes < 9 → is_some (relay_data (new_cursor bytes)).0 ≡ false
unfolding relay_data field_u32 field_u8 require_bytes reject_if set_error skip_bytes finish_field
too_short bytes short = ground arith

by_length :
    (bytes : List ℕ)
    → is_some (relay_data (new_cursor bytes)).0
      ≡ (if ltb (length bytes) 9 then false else verdict (parse_relay_data bytes))
by_length (a ∷ b ∷ c ∷ d ∷ e ∷ f ∷ g ∷ h ∷ i ∷ rest) =
    cursor_test a b c d e f g h i rest ∙ sym (server_test a b c d e f g h i rest) ∙ ground arith
by_length [] = too_short [] (omega arith) ∙ ground arith
by_length (a ∷ []) = too_short (a ∷ []) (omega arith) ∙ ground arith
by_length (a ∷ b ∷ []) = too_short (a ∷ b ∷ []) (omega arith) ∙ ground arith
by_length (a ∷ b ∷ c ∷ []) = too_short (a ∷ b ∷ c ∷ []) (omega arith) ∙ ground arith
by_length (a ∷ b ∷ c ∷ d ∷ []) = too_short (a ∷ b ∷ c ∷ d ∷ []) (omega arith) ∙ ground arith
by_length (a ∷ b ∷ c ∷ d ∷ e ∷ []) = too_short (a ∷ b ∷ c ∷ d ∷ e ∷ []) (omega arith) ∙ ground arith
by_length (a ∷ b ∷ c ∷ d ∷ e ∷ f ∷ []) =
    too_short (a ∷ b ∷ c ∷ d ∷ e ∷ f ∷ []) (omega arith) ∙ ground arith
by_length (a ∷ b ∷ c ∷ d ∷ e ∷ f ∷ g ∷ []) =
    too_short (a ∷ b ∷ c ∷ d ∷ e ∷ f ∷ g ∷ []) (omega arith) ∙ ground arith
by_length (a ∷ b ∷ c ∷ d ∷ e ∷ f ∷ g ∷ h ∷ []) =
    too_short (a ∷ b ∷ c ∷ d ∷ e ∷ f ∷ g ∷ h ∷ []) (omega arith) ∙ ground arith

-- The check of relay data with the cursor and the server's check accept the same messages.
pub relay_data-validate_client_signal_payload :
    (bytes : List ℕ)
    → is_some (relay_data (new_cursor bytes)).0
      ≡ validate_client_signal_payload msg_tcp_relay_data bytes
unfolding validate_client_signal_payload
relay_data-validate_client_signal_payload bytes =
    by_length bytes ∙ ground (arith, check-Refines read_relay_data-Refines bytes)
