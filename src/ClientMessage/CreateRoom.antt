-- ===== src/ClientMessage/CreateRoom.antt =====
-- MSG_CREATE_ROOM: the server accepts the messages that the client builds.
use mathlib.Core.List.{append_assoc}
use vlan_connect.Prelude.{
  ltb, ◌==◌, if◌then◌else◌, length, ◌>>=◌, return, ℕ, ◌^◌, ◌≤◌, ◌<◌, ◌≡◌, refl, ◌∙◌, Bool, true,
  false, not, ◌&&◌, Option, none, some, List, [], ◌∷◌, ◌++◌, arith,
}
use vlan_connect.Protocol.Constants.{auth_salt_size, msg_create_room}
use vlan_connect.Protocol.Names.{is_valid_room_name}
use vlan_connect.Protocol.Policy.{
  transport_value, fec_value, profile_value, is_valid_room_mtu_value, normalize_room_mtu,
  RoomTrafficPolicy, is_valid_policy_values,
}
use vlan_connect.Protocol.Policies.{IsCanonical, normalize_traffic_policy_roundtrip}
use vlan_connect.ByteBuffer.{u8_bytes, u16_bytes, string_bytes}
use vlan_connect.ByteBuffer.Parser.{Parse, p_u8, p_u16, p_bytes, p_string, p_at_end}
use vlan_connect.ByteBuffer.Refine.{Refines, p_ended, reads}
use vlan_connect.ByteBuffer.RoundTrip.{p_bytes_of, p_string_of}
use vlan_connect.ClientMessage.{verdict, validate_client_signal_payload}
use vlan_connect.ClientMessage.Verdict.{check-Refines}
use vlan_connect.ClientMessage.Readers.{
  valid_create, read_policy, read_mtu_and_end, read_create_room,
}

unfoldable pub policy_bytes : RoomTrafficPolicy → List ℕ
policy_bytes p =
    u8_bytes (transport_value p.transport_mode)
    ++ (u8_bytes (fec_value p.fec_mode) ++ u8_bytes (profile_value p.kcp_profile))

-- The salt and the hash of a password, or none.
unfoldable pub secret_bytes : Option (List ℕ × List ℕ) → List ℕ
secret_bytes none = u8_bytes 0
secret_bytes (some (salt, hash)) = u8_bytes 1 ++ (salt ++ hash)

-- The body of CliSignalClient::createRoom, which pollAuthTask completes for a room with a password
-- (client-cli/src/cli_net.cpp).
unfoldable pub create_room_body :
    List ℕ → ℕ → RoomTrafficPolicy → RoomTrafficPolicy → ℕ → Option (List ℕ × List ℕ) → List ℕ
create_room_body name players tcp udp mtu secret =
    string_bytes name
    ++ (u8_bytes players
        ++ (policy_bytes tcp
            ++ (policy_bytes udp ++ (secret_bytes secret ++ u16_bytes (normalize_room_mtu mtu)))))

pub parse_policy : Parse (ℕ × ℕ × ℕ)
parse_policy = do mode ← p_u8; fec ← p_u8; profile ← p_u8; return (mode, fec, profile)

pub parse_mtu_and_end : Parse Bool
parse_mtu_and_end = do mtu ← p_u16; done ← p_ended; return (is_valid_room_mtu_value mtu && done)

pub parse_secret : Parse Bool
parse_secret = do
  password_protected ← p_u8
  if ltb 1 password_protected
      then return false
      else (if password_protected == 0
          then parse_mtu_and_end
          else do salt ← p_bytes auth_salt_size; hash ← p_bytes 32; parse_mtu_and_end)

pub parse_create_room : Parse Bool
parse_create_room = do
  name ← p_string
  players ← p_u8
  tcp ← parse_policy
  udp ← parse_policy
  if not (valid_create name players tcp udp) then return false else parse_secret

read_create_room-Refines : Refines read_create_room parse_create_room
unfolding read_create_room parse_create_room parse_secret parse_policy read_policy parse_mtu_and_end
    read_mtu_and_end
read_create_room-Refines = search reads depth 40

validate_create_room :
    (xs : List ℕ)
    → validate_client_signal_payload msg_create_room xs ≡ verdict (parse_create_room xs)
unfolding validate_client_signal_payload parse_create_room p_string p_u16
validate_create_room [] = refl
validate_create_room (x ∷ xs) = ground (arith, check-Refines read_create_room-Refines (x ∷ xs))

parse_policy_of :
    (p : RoomTrafficPolicy) (rest : List ℕ)
    → parse_policy (policy_bytes p ++ rest)
      ≡ some (
        (transport_value p.transport_mode, fec_value p.fec_mode, profile_value p.kcp_profile),
        rest,
      )
unfolding parse_policy policy_bytes p_u8
parse_policy_of p rest = refl

parse_mtu_of : (mtu : ℕ) → verdict (parse_mtu_and_end (u16_bytes (normalize_room_mtu mtu))) ≡ true
unfolding parse_mtu_and_end p_u16 p_ended p_at_end normalize_room_mtu is_valid_room_mtu_value
parse_mtu_of mtu = ground arith

unfoldable pub IsSecret : Option (List ℕ × List ℕ) → Type 0
IsSecret none = Unit
IsSecret (some (salt, hash)) = (length salt ≡ auth_salt_size) × (length hash ≡ 32)

parse_secret_of :
    (secret : Option (List ℕ × List ℕ)) (mtu : ℕ)
    → IsSecret secret
    → verdict (parse_secret (secret_bytes secret ++ u16_bytes (normalize_room_mtu mtu))) ≡ true
unfolding parse_secret secret_bytes IsSecret p_u8
parse_secret_of none mtu v = parse_mtu_of mtu
parse_secret_of (some (salt, hash)) mtu v =
    rw (append_assoc salt hash (u16_bytes (normalize_room_mtu mtu))) (
      rw
        (
          ◌>>=◌,
          p_bytes_of salt (hash ++ u16_bytes (normalize_room_mtu mtu)) auth_salt_size v.0,
          p_bytes_of hash (u16_bytes (normalize_room_mtu mtu)) 32 v.1,
        )
        (parse_mtu_of mtu))

room_name_short : (name : List ℕ) → is_valid_room_name name ≡ true → length name < 2 ^ 16
unfolding is_valid_room_name
room_name_short name h = ground arith

valid_create_of :
    (name : List ℕ) (players : ℕ) (tcp udp : RoomTrafficPolicy)
    → is_valid_room_name name ≡ true
    → (2 ≤ players) × (players ≤ 8)
    → IsCanonical tcp
    → IsCanonical udp
    → valid_create name players
        (transport_value tcp.transport_mode, fec_value tcp.fec_mode, profile_value tcp.kcp_profile)
        (transport_value udp.transport_mode, fec_value udp.fec_mode, profile_value udp.kcp_profile)
      ≡ true
unfolding valid_create is_valid_policy_values
valid_create_of name players tcp udp good range ht hu = ground (
  arith,
  (normalize_traffic_policy_roundtrip tcp tcp ht).0,
  (normalize_traffic_policy_roundtrip udp udp hu).0,
)

-- Every room that the client can ask for is accepted: a valid name, 2 to 8 players, policies without
-- FEC over TCP, any MTU, and a salt and a hash of the right sizes if there is a password.
pub validate-create_room_body :
    (name : List ℕ) (players : ℕ) (tcp udp : RoomTrafficPolicy) (mtu : ℕ)
    (secret : Option (List ℕ × List ℕ))
    → is_valid_room_name name ≡ true
    → (2 ≤ players) × (players ≤ 8)
    → IsCanonical tcp
    → IsCanonical udp
    → IsSecret secret
    → validate_client_signal_payload msg_create_room
        (create_room_body name players tcp udp mtu secret)
      ≡ true
unfolding create_room_body parse_create_room p_u8
validate-create_room_body name players tcp udp mtu secret good range ht hu v =
    validate_create_room (create_room_body name players tcp udp mtu secret)
    ∙ rw
        (
          parse_create_room,
          ◌>>=◌,
          p_string_of name _ (room_name_short name good),
          p_u8,
          parse_policy_of tcp _,
          parse_policy_of udp _,
          valid_create_of name players tcp udp good range ht hu,
        )
        (parse_secret_of secret mtu v)
