-- ===== src/Overlay.antt =====
-- common/overlay_packet_validator.h: the check of IPv4 packets that enter or leave the overlay.
-- A packet is its list of bytes; a null pointer comes with length 0.
mod Tests
use Prim.Native.Nat.{bit_and}
use vlan_connect.Prelude.{
  ltb, ◌==◌, if◌then◌else◌, length, get_or, ℕ, ◌+◌, ◌*◌, ◌/◌, ◌%◌, ◌^◌, ◌≤◌, ◌≡◌, ◌≢◌, ◌↔◌, ◌⊎◌,
  Bool, true, false, not, ◌&&◌, ◌||◌, List, arith,
}
use vlan_connect.Protocol.Constants.{vnet_broadcast}
use vlan_connect.Protocol.Traffic.{be32}
use vlan_connect.Protocol.Policy.{normalize_room_mtu}

pub data OverlayPacketError : Type 0 where
  no_error truncated not_ipv4 invalid_header_length invalid_total_length : OverlayPacketError
  exceeds_mtu invalid_source invalid_destination : OverlayPacketError

pub record OverlayPacketResult : Type 0 where
  pub error : OverlayPacketError
  pub source : ℕ
  pub destination : ℕ

abbrev pub is_no_error : OverlayPacketError → Bool
is_no_error no_error = true
is_no_error _ = false

abbrev pub is_valid : OverlayPacketResult → Bool
is_valid r = is_no_error r.error

abbrev rejected : OverlayPacketError → OverlayPacketResult
rejected e = record { error = e; source = 0; destination = 0 }

abbrev byte : List ℕ → ℕ → ℕ
byte p i = get_or p i 0

abbrev pub read_overlay_address : List ℕ → ℕ → ℕ
read_overlay_address p i = be32 (byte p i) (byte p (i + 1)) (byte p (i + 2)) (byte p (i + 3))

-- `packet[0] >> 4` and `packet[0] & 0x0f` of a byte.
abbrev pub header_length : List ℕ → ℕ
header_length p = byte p 0 % 16 * 4

abbrev pub total_length : List ℕ → ℕ
total_length p = byte p 2 * 2 ^ 8 + byte p 3

pub validate_overlay_ipv4_structure : List ℕ → ℕ → OverlayPacketResult
validate_overlay_ipv4_structure p mtu =
    if ltb (length p) 20
    then rejected truncated
    else if not (byte p 0 / 16 == 4)
    then rejected not_ipv4
    else if ltb (header_length p) 20 || ltb (length p) (header_length p)
    then rejected invalid_header_length
    else if ltb (total_length p) (header_length p) || not (total_length p == length p)
    then rejected invalid_total_length
    else if ltb (normalize_room_mtu mtu) (length p)
    then rejected exceeds_mtu
    else record {
      error = no_error;
      source = read_overlay_address p 12;
      destination = read_overlay_address p 16;
    }

abbrev pub broadcast : ℕ
broadcast = 0xFFFFFFFF

pub validate_inbound_overlay_ipv4 : List ℕ → ℕ → ℕ → ℕ → OverlayPacketResult
validate_inbound_overlay_ipv4 p mtu expected local =
    let r = validate_overlay_ipv4_structure p mtu in
    if not (is_valid r)
    then r
    else if expected == 0 || not (r.source == expected)
    then record r { error = invalid_source }
    else if local == 0
        || (not (r.destination == local)
            && not (r.destination == vnet_broadcast)
            && not (r.destination == broadcast))
    then record r { error = invalid_destination }
    else r

pub validate_outbound_overlay_ipv4 : List ℕ → ℕ → ℕ → OverlayPacketResult
validate_outbound_overlay_ipv4 p mtu local =
    let r = validate_overlay_ipv4_structure p mtu in
    if not (is_valid r)
    then r
    else if local == 0 || not (r.source == local)
    then record r { error = invalid_source }
    else r

-- The shape of a packet that may be carried, by its bytes.
pub record IsPacket (p : List ℕ) (mtu : ℕ) : Type 0 where
  version : byte p 0 / 16 ≡ 4
  header : (20 ≤ header_length p) × (header_length p ≤ length p)
  total : total_length p ≡ length p
  fits : length p ≤ normalize_room_mtu mtu

-- The structure check accepts exactly the well formed packets, and reads their two addresses.
pub validate_overlay_ipv4_structure_iff :
    (p : List ℕ) (mtu : ℕ)
    → ((is_valid (validate_overlay_ipv4_structure p mtu) ≡ true) ↔ IsPacket p mtu)
      × (IsPacket p mtu
          → ((validate_overlay_ipv4_structure p mtu).source ≡ read_overlay_address p 12)
            × ((validate_overlay_ipv4_structure p mtu).destination ≡ read_overlay_address p 16))
unfolding validate_overlay_ipv4_structure
validate_overlay_ipv4_structure_iff p mtu = (
  (
    (λ h. record {
      version = ground arith;
      header = (ground arith, ground arith);
      total = ground arith;
      fits = ground arith;
    }),
    (λ w. ground (arith, w.version, w.header, w.total, w.fits)),
  ),
  (λ w. (
    ground (arith, w.version, w.header, w.total, w.fits),
    ground (arith, w.version, w.header, w.total, w.fits),
  )),
)

-- A packet that its sender lets out passes the check of a receiver that knows the sender's address,
-- if it is for the receiver or a broadcast; and any packet that is let in comes from that sender.
pub validate-inbound-outbound :
    (p : List ℕ) (mtu sender local : ℕ)
    → (is_valid (validate_inbound_overlay_ipv4 p mtu sender local) ≡ true) ↔ (
        (is_valid (validate_outbound_overlay_ipv4 p mtu sender) ≡ true)
        × (local ≢ 0)
        × ((read_overlay_address p 16 ≡ local)
            ⊎ ((read_overlay_address p 16 ≡ vnet_broadcast)
                ⊎ (read_overlay_address p 16 ≡ broadcast))))
unfolding validate_inbound_overlay_ipv4 validate_outbound_overlay_ipv4
validate-inbound-outbound p mtu sender local =
    let shape = validate_overlay_ipv4_structure_iff p mtu in
    let address : is_valid (validate_overlay_ipv4_structure p mtu) ≡ true
        → (validate_overlay_ipv4_structure p mtu).destination ≡ read_overlay_address p 16 =
      λ ok. (shape.1 (shape.0.0 ok)).1 in
    ((λ h. ground (arith, address)), (λ h. ground (arith, address)))
