-- ===== src/ClientMessage/Short.antt =====
-- The messages of a fixed form: MSG_JOIN_ROOM, MSG_REQUEST_RELAY, MSG_RESUME_ROOM and
-- MSG_TCP_RELAY_DATA, with the bodies that client-cli/src/cli_net.cpp builds.
use vlan_connect.Prelude.{
  ◌==◌, if◌then◌else◌, length, ◌>>=◌, return, ℕ, ◌^◌, ◌≤◌, ◌<◌, ◌≡◌, sym, ap, ◌∙◌, ◌↔◌, Bool, true,
  false, not, ◌&&◌, ◌||◌, some, List, [], ◌++◌, arith,
}
use vlan_connect.Protocol.Constants.{msg_join_room, msg_resume_room, msg_tcp_relay_data}
use vlan_connect.Protocol.Traffic.{TrafficClass, traffic_tcp, traffic_udp, traffic_value}
use vlan_connect.ByteBuffer.{u8_bytes, u32_bytes}
use vlan_connect.ByteBuffer.Parser.{Parse, p_u8, p_u32, p_at_end}
use vlan_connect.ByteBuffer.Refine.{Refines, p_ended, reads}
use vlan_connect.ByteBuffer.RoundTrip.{IsBytes, p_u32_of, p_u32_inv}
use vlan_connect.ClientMessage.{verdict, check, validate_client_signal_payload}
use vlan_connect.ClientMessage.Verdict.{check-Refines, Accepts, bind_inv, else_inv, p_ended_inv}
use vlan_connect.ClientMessage.Readers.{read_room_or_peer, read_resume_room, read_relay_data}
use vlan_connect.ClientMessage.Login.{
  Resume, IsLease, parse_lease_end, parse_lease_end_of, parse_lease_end_inv,
}

-- CliSignalClient::resumeRoom
unfoldable pub resume_room_body : Resume → List ℕ
resume_room_body r = u32_bytes r.room ++ (u32_bytes r.peer ++ r.token)

-- CliSignalClient::sendRelayData
unfoldable pub relay_data_body : ℕ → ℕ → TrafficClass → List ℕ → List ℕ
relay_data_body source destination class packet =
    u32_bytes source ++ (u32_bytes destination ++ (u8_bytes (traffic_value class) ++ packet))

read_resume_room-Refines : Refines read_resume_room parse_lease_end
unfolding read_resume_room parse_lease_end
read_resume_room-Refines = search reads depth 20

unfoldable pub parse_relay_data : Parse Bool
parse_relay_data = do
  source ← p_u32
  destination ← p_u32
  traffic_class ← p_u8
  return (
      not (source == 0)
      && not (destination == 0)
      && (traffic_class == traffic_value traffic_tcp || traffic_class == traffic_value traffic_udp))

pub read_relay_data-Refines : Refines read_relay_data parse_relay_data
unfolding read_relay_data parse_relay_data
read_relay_data-Refines = search reads depth 20

parse_room_or_peer : Parse Bool
parse_room_or_peer = do id ← p_u32; if id == 0 then return false else p_ended

read_room_or_peer-Refines : Refines read_room_or_peer parse_room_or_peer
unfolding read_room_or_peer parse_room_or_peer
read_room_or_peer-Refines = search reads depth 20

-- A resume request is accepted exactly when it is the body that the client builds for a lease whose
-- room, peer and token are not zero.
pub validate-resume_room_body :
    (xs : List ℕ)
    → IsBytes xs
    → (validate_client_signal_payload msg_resume_room xs ≡ true)
      ↔ ((r : Resume) × IsLease r.room r.peer r.token × (xs ≡ resume_room_body r))
unfolding validate_client_signal_payload resume_room_body
validate-resume_room_body xs h =
    let same = check-Refines read_resume_room-Refines xs in
    (
      (λ ok. parse_lease_end_inv xs h (record { run = sym same ∙ checked ok })),
      (λ (r, lease, split). by_lease r lease split),
    )
  where
    checked :
        validate_client_signal_payload msg_resume_room xs ≡ true → check read_resume_room xs ≡ true
    checked ok = ground arith

    by_lease :
        (r : Resume)
        → IsLease r.room r.peer r.token
        → xs ≡ u32_bytes r.room ++ (u32_bytes r.peer ++ r.token)
        → validate_client_signal_payload msg_resume_room xs ≡ true
    by_lease r lease split =
        let sized : length xs ≡ 40 = ap length split ∙ omega (arith, lease.token_length) in
        let good : check read_resume_room xs ≡ true =
          check-Refines read_resume_room-Refines xs
          ∙ ap (λ t. verdict (parse_lease_end t)) split
          ∙ parse_lease_end_of r.room r.peer r.token lease in
        ground (arith, sized, good)

-- A join or relay request is accepted exactly when it is one number that is not 0.
pub validate-room_or_peer :
    (xs : List ℕ)
    → IsBytes xs
    → (validate_client_signal_payload msg_join_room xs ≡ true)
      ↔ ((id : ℕ) × (1 ≤ id) × (id < 2 ^ 32) × (xs ≡ u32_bytes id))
unfolding validate_client_signal_payload parse_room_or_peer p_ended p_at_end
validate-room_or_peer xs h = (
  (λ ok.
      number xs h (record { run = sym (check-Refines read_room_or_peer-Refines xs) ∙ checked ok })),
  (λ (id, low, high, split). accepted id low high split),
)
  where
    checked :
        validate_client_signal_payload msg_join_room xs ≡ true → check read_room_or_peer xs ≡ true
    checked ok = ground arith

    number :
        (xs : List ℕ)
        → IsBytes xs
        → Accepts parse_room_or_peer xs
        → (id : ℕ) × (1 ≤ id) × (id < 2 ^ 32) × (xs ≡ u32_bytes id)
    number xs h e =
        let (id, rest, read, e1) = bind_inv p_u32 _ e in
        let (split, high, h1) = p_u32_inv xs id rest h read in
        let (low, e2) = else_inv (id == 0) e1 in
        (id, ground arith, high, split ∙ ap (λ t. u32_bytes id ++ t) (p_ended_inv rest e2))

    accepted :
        (id : ℕ)
        → 1 ≤ id
        → id < 2 ^ 32
        → xs ≡ u32_bytes id
        → validate_client_signal_payload msg_join_room xs ≡ true
    accepted id low high split =
        let sized : length xs ≡ 4 = ap length split in
        let parsed : parse_room_or_peer (u32_bytes id ++ []) ≡ some (true, []) =
          rw (parse_room_or_peer, ◌>>=◌, p_u32_of id [] high) (ground arith) in
        let good : check read_room_or_peer xs ≡ true =
          check-Refines read_room_or_peer-Refines xs
          ∙ ap (λ t. verdict (parse_room_or_peer t)) split
          ∙ ap verdict parsed in
        ground (arith, sized, good)

-- Relay data that the client sends is accepted: two peers that are not 0, either traffic class and
-- any packet.
pub validate-relay_data_body :
    (source destination : ℕ) (class : TrafficClass) (packet : List ℕ)
    → (1 ≤ source) × (source < 2 ^ 32)
    → (1 ≤ destination) × (destination < 2 ^ 32)
    → validate_client_signal_payload msg_tcp_relay_data
        (relay_data_body source destination class packet)
      ≡ true
unfolding validate_client_signal_payload relay_data_body parse_relay_data p_u8
validate-relay_data_body source destination class packet hs hd =
    let parsed : parse_relay_data (relay_data_body source destination class packet)
        ≡ some (true, packet) =
      rw (parse_relay_data, ◌>>=◌, p_u32_of source _ hs.1, p_u32_of destination _ hd.1)
        (ground arith) in
    let good : check read_relay_data (relay_data_body source destination class packet) ≡ true =
      check-Refines read_relay_data-Refines (relay_data_body source destination class packet)
      ∙ ap verdict parsed in
    ground (arith, good)
