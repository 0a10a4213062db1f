-- ===== src/Protocol/Budget.antt =====
-- transportPayloadBudget, kcpMtuFromRoomMtu and fecParityCount of common/protocol.h.
use vlan_connect.Prelude.{
  ltb, if◌then◌else◌, ℕ, ◌+◌, ◌-◌, ◌*◌, ◌/◌, ◌≤◌, ◌≡◌, refl, ◌≢◌, ◌↔◌, ◌⊎◌, inl, inr, Bool, true,
  false, arith,
}
use vlan_connect.Protocol.Constants.{raw_udp_max_frag_payload}
use vlan_connect.Protocol.Policy.{
  TransportMode, mode_relay_kcp, mode_relay_raw_udp, FecMode, fec_none, fec_10, fec_30, fec_50,
  fec_70, fec_100, fec_200, normalize_room_mtu,
}

-- The sizes of the packed headers.
abbrev pub udp_relay_header_size : ℕ
udp_relay_header_size = 10

abbrev pub fec_header_size : ℕ
fec_header_size = 4

abbrev pub frag_header_size : ℕ
frag_header_size = 6

-- UDP_ENCRYPTED, session, counter and MAC.
abbrev pub encryption_overhead : ℕ
encryption_overhead = 1 + 4 + 8 + 16

abbrev is_raw_udp : TransportMode → Bool
is_raw_udp mode_relay_raw_udp = true
is_raw_udp _ = false

-- The differences stay above 0, since a normalised MTU is at least 1280.
unfoldable pub transport_payload_budget : ℕ → TransportMode → Bool → Bool → ℕ
transport_payload_budget room_mtu mode fec_enabled encrypted =
    let b0 = normalize_room_mtu room_mtu - udp_relay_header_size in
    let b1 = if fec_enabled then b0 - fec_header_size else b0 in
    let b2 = if encrypted then b1 - encryption_overhead else b1 in
    let b3 = if is_raw_udp mode then b2 - frag_header_size else b2 in
    let b4 = if ltb b3 256 then 256 else b3 in
    if ltb raw_udp_max_frag_payload b4 then raw_udp_max_frag_payload else b4

unfoldable pub kcp_mtu_from_room_mtu : ℕ → Bool → Bool → ℕ
kcp_mtu_from_room_mtu room_mtu fec_enabled encrypted =
    transport_payload_budget room_mtu mode_relay_kcp fec_enabled encrypted

unfoldable pub fec_parity_count : FecMode → ℕ → ℕ
fec_parity_count fec_10 n = (n * 1 + 9) / 10
fec_parity_count fec_30 n = (n * 3 + 9) / 10
fec_parity_count fec_50 n = (n * 5 + 9) / 10
fec_parity_count fec_70 n = (n * 7 + 9) / 10
fec_parity_count fec_100 n = n
fec_parity_count fec_200 n = n * 2
fec_parity_count fec_none n = 0

-- What the headers of a datagram take beside the payload.
abbrev pub headers : TransportMode → Bool → Bool → ℕ
headers mode fec_enabled encrypted =
    udp_relay_header_size
    + (if fec_enabled then fec_header_size else 0)
    + (if encrypted then encryption_overhead else 0)
    + (if is_raw_udp mode then frag_header_size else 0)

-- For every configured MTU, mode and option the budget and the headers make up the
-- normalised room MTU exactly: neither of the two clamps ever applies.
pub budget_exact :
    (mtu : ℕ) (mode : TransportMode) (fec enc : Bool)
    → transport_payload_budget mtu mode fec enc + headers mode fec enc ≡ normalize_room_mtu mtu
unfolding transport_payload_budget normalize_room_mtu
budget_exact mtu mode fec enc = ground arith

-- A mode that is on takes a block for a group that is not empty.
positive :
    (mode : FecMode) (n : ℕ)
    → mode ≢ fec_none
    → ((fec_parity_count mode n ≡ 0) ↔ (n ≡ 0))
    → (fec_parity_count mode n ≡ 0) ↔ ((n ≡ 0) ⊎ (mode ≡ fec_none))
positive mode n on same =
    ((λ e. inl (same.0 e)), (λ h. elim h [ inl e ↦ same.1 e | inr off ↦ absurd (on off) ]))

-- A group takes at most twice as many parity blocks as it has packets, and it takes none exactly
-- when it is empty or FEC is off.
pub fec_parity_count_bounds :
    (mode : FecMode) (n : ℕ)
    → (fec_parity_count mode n ≤ n * 2)
      × ((fec_parity_count mode n ≡ 0) ↔ ((n ≡ 0) ⊎ (mode ≡ fec_none)))
unfolding fec_parity_count
fec_parity_count_bounds fec_none n = (omega arith, ((λ e. inr refl), (λ h. refl)))
fec_parity_count_bounds fec_10 n =
    (omega arith, positive fec_10 n (λ e. cc) ((λ e. omega arith), (λ e. omega arith)))
fec_parity_count_bounds fec_30 n =
    (omega arith, positive fec_30 n (λ e. cc) ((λ e. omega arith), (λ e. omega arith)))
fec_parity_count_bounds fec_50 n =
    (omega arith, positive fec_50 n (λ e. cc) ((λ e. omega arith), (λ e. omega arith)))
fec_parity_count_bounds fec_70 n =
    (omega arith, positive fec_70 n (λ e. cc) ((λ e. omega arith), (λ e. omega arith)))
fec_parity_count_bounds fec_100 n = (omega arith, positive fec_100 n (λ e. cc) ((λ e. e), (λ e. e)))
fec_parity_count_bounds fec_200 n =
    (omega arith, positive fec_200 n (λ e. cc) ((λ e. omega arith), (λ e. omega arith)))
