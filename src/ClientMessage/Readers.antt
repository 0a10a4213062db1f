-- ===== src/ClientMessage/Readers.antt =====
-- The reads of client_message_validator.h, message by message.
use Prim.Native.Nat.{bit_or}
use vlan_connect.Prelude.{
  ltb, leb, ◌==◌, if◌then◌else◌, ◌>>=◌, return, ℕ, Bool, false, not, ◌&&◌, ◌||◌, List, [], ◌∷◌,
}
use vlan_connect.Protocol.Constants.{max_players, reconnect_token_size, auth_salt_size}
use vlan_connect.Protocol.Names.{is_valid_player_name, is_valid_room_name}
use vlan_connect.Protocol.Policy.{
  is_valid_transport_mode_value, is_valid_fec_mode_value, is_valid_kcp_profile_value,
  is_valid_room_mtu_value,
}
use vlan_connect.ByteBuffer.{Read, read_u8, read_u16, read_u32, read_bytes, read_string}
use vlan_connect.ByteBuffer.Refine.{ended}
use vlan_connect.Protocol.Traffic.{traffic_tcp, traffic_udp, traffic_value}

-- `for (...) value |= token[i];`
unfoldable pub or_all : ℕ → List ℕ → ℕ
or_all value [] = value
or_all value (b ∷ token) = or_all (bit_or value b) token

unfoldable pub has_nonzero_reconnect_token : List ℕ → Bool
has_nonzero_reconnect_token token = not (or_all 0 token == 0)

abbrev pub known_lease : ℕ → ℕ → List ℕ → Bool
known_lease room peer token =
    not (room == 0) && not (peer == 0) && has_nonzero_reconnect_token token

unfoldable pub read_login : Read Bool
read_login = do
  name ← read_string
  if not (is_valid_player_name name) then return false else do
    version ← read_u16
    has_resume ← read_u8
    if ltb 1 has_resume
        then return false
        else (if has_resume == 0 then ended else do
          room ← read_u32
          peer ← read_u32
          token ← read_bytes reconnect_token_size
          if not (known_lease room peer token) then return false else ended)

unfoldable pub valid_create : List ℕ → ℕ → (ℕ × ℕ × ℕ) → (ℕ × ℕ × ℕ) → Bool
valid_create name players (tm, tf, tp) (um, uf, up) =
    is_valid_room_name name
    && leb 2 players
    && leb players max_players
    && is_valid_transport_mode_value tm
    && is_valid_transport_mode_value um
    && is_valid_fec_mode_value tf
    && is_valid_fec_mode_value uf
    && is_valid_kcp_profile_value tp
    && is_valid_kcp_profile_value up
    && not (tm == 3 && not (tf == 0))
    && not (um == 3 && not (uf == 0))

-- The three bytes of a policy.
unfoldable pub read_policy : Read (ℕ × ℕ × ℕ)
read_policy = do mode ← read_u8; fec ← read_u8; profile ← read_u8; return (mode, fec, profile)

unfoldable pub read_mtu_and_end : Read Bool
read_mtu_and_end = do mtu ← read_u16; done ← ended; return (is_valid_room_mtu_value mtu && done)

unfoldable pub read_create_room : Read Bool
read_create_room = do
  name ← read_string
  players ← read_u8
  tcp ← read_policy
  udp ← read_policy
  if not (valid_create name players tcp udp) then return false else do
    password_protected ← read_u8
    if ltb 1 password_protected
        then return false
        else (if password_protected == 0
            then read_mtu_and_end
            else do salt ← read_bytes auth_salt_size; hash ← read_bytes 32; read_mtu_and_end)

unfoldable pub read_room_or_peer : Read Bool
read_room_or_peer = do id ← read_u32; if id == 0 then return false else ended

unfoldable pub read_resume_room : Read Bool
read_resume_room = do
  room ← read_u32
  peer ← read_u32
  token ← read_bytes reconnect_token_size
  if not (known_lease room peer token) then return false else ended

unfoldable pub read_relay_data : Read Bool
read_relay_data = do
  source ← read_u32
  destination ← read_u32
  traffic_class ← read_u8
  return (
      not (source == 0)
      && not (destination == 0)
      && (traffic_class == traffic_value traffic_tcp || traffic_class == traffic_value traffic_udp))
