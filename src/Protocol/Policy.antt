-- ===== src/Protocol/Policy.antt =====
-- Transport modes, FEC modes, KCP profiles and the policies made of them,
-- of common/protocol.h.
use vlan_connect.Prelude.{◌==◌, if◌then◌else◌, ℕ, Bool, true, false, ◌&&◌, ◌||◌}
use vlan_connect.Protocol.Constants.{
  room_mtu_safe, room_mtu_balanced, room_mtu_aggressive, room_mtu_default,
}

pub data TransportMode : Type 0 where
  mode_relay_kcp mode_relay_tcp mode_relay_raw_udp : TransportMode

pub data FecMode : Type 0 where
  fec_none fec_10 fec_30 fec_50 fec_70 fec_100 fec_200 : FecMode

pub data KcpProfile : Type 0 where
  kcp_profile_realtime kcp_profile_bulk : KcpProfile

-- The values of the enumerators, as they go over the wire.
abbrev pub transport_value : TransportMode → ℕ
transport_value mode_relay_kcp = 2
transport_value mode_relay_tcp = 3
transport_value mode_relay_raw_udp = 4

abbrev pub fec_value : FecMode → ℕ
fec_value fec_none = 0
fec_value fec_10 = 1
fec_value fec_30 = 2
fec_value fec_50 = 3
fec_value fec_70 = 4
fec_value fec_100 = 5
fec_value fec_200 = 6

abbrev pub profile_value : KcpProfile → ℕ
profile_value kcp_profile_realtime = 0
profile_value kcp_profile_bulk = 1

-- The `static_cast`s, which the source makes only at valid values.
abbrev pub transport_cast : ℕ → TransportMode
transport_cast raw =
    if raw == 3 then mode_relay_tcp else if raw == 4 then mode_relay_raw_udp else mode_relay_kcp

abbrev pub fec_cast : ℕ → FecMode
fec_cast raw =
    if raw == 1
    then fec_10
    else if raw == 2
    then fec_30
    else if raw == 3
    then fec_50
    else if raw == 4
    then fec_70
    else if raw == 5
    then fec_100
    else if raw == 6
    then fec_200
    else fec_none

abbrev pub profile_cast : ℕ → KcpProfile
profile_cast raw = if raw == 1 then kcp_profile_bulk else kcp_profile_realtime

abbrev pub is_tcp : TransportMode → Bool
is_tcp mode_relay_tcp = true
is_tcp _ = false

unfoldable pub is_valid_transport_mode_value : ℕ → Bool
is_valid_transport_mode_value raw = raw == 2 || raw == 3 || raw == 4

unfoldable pub is_valid_fec_mode_value : ℕ → Bool
is_valid_fec_mode_value raw =
    raw == 0 || raw == 1 || raw == 2 || raw == 3 || raw == 4 || raw == 5 || raw == 6

unfoldable pub is_valid_kcp_profile_value : ℕ → Bool
is_valid_kcp_profile_value raw = raw == 0 || raw == 1

unfoldable pub is_valid_room_mtu_value : ℕ → Bool
is_valid_room_mtu_value mtu =
    mtu == room_mtu_safe || mtu == room_mtu_balanced || mtu == room_mtu_aggressive

pub normalize_transport_mode : ℕ → TransportMode
unfolding is_valid_transport_mode_value
normalize_transport_mode raw =
    if is_valid_transport_mode_value raw then transport_cast raw else mode_relay_kcp

pub normalize_fec_mode : ℕ → TransportMode → FecMode
unfolding is_valid_fec_mode_value
normalize_fec_mode raw mode =
    let fec = if is_valid_fec_mode_value raw then fec_cast raw else fec_none in
    if is_tcp mode then fec_none else fec

pub normalize_kcp_profile : ℕ → KcpProfile
unfolding is_valid_kcp_profile_value
normalize_kcp_profile raw =
    if is_valid_kcp_profile_value raw then profile_cast raw else kcp_profile_realtime

unfoldable pub normalize_room_mtu : ℕ → ℕ
unfolding is_valid_room_mtu_value
normalize_room_mtu mtu = if is_valid_room_mtu_value mtu then mtu else room_mtu_default

pub record RoomTrafficPolicy : Type 0 where
  pub transport_mode : TransportMode
  pub fec_mode : FecMode
  pub kcp_profile : KcpProfile

abbrev pub make_default_tcp_policy : RoomTrafficPolicy
make_default_tcp_policy = record {
  transport_mode = mode_relay_raw_udp;
  fec_mode = fec_none;
  kcp_profile = kcp_profile_realtime;
}

abbrev pub make_default_udp_policy : RoomTrafficPolicy
make_default_udp_policy = record {
  transport_mode = mode_relay_kcp;
  fec_mode = fec_none;
  kcp_profile = kcp_profile_realtime;
}

unfoldable pub normalize_traffic_policy : ℕ → ℕ → ℕ → RoomTrafficPolicy → RoomTrafficPolicy
unfolding is_valid_transport_mode_value normalize_fec_mode normalize_kcp_profile
normalize_traffic_policy transport fec profile fallback =
    let mode =
      if is_valid_transport_mode_value transport
      then transport_cast transport
      else fallback.transport_mode in
    let fec' = normalize_fec_mode fec mode in
    record {
      transport_mode = mode;
      fec_mode = if is_tcp mode then fec_none else fec';
      kcp_profile = normalize_kcp_profile profile;
    }

-- The check that validators and handlers make of the three raw values of a policy.
unfoldable pub is_valid_policy_values : ℕ → ℕ → ℕ → Bool
unfolding is_valid_transport_mode_value is_valid_fec_mode_value is_valid_kcp_profile_value
is_valid_policy_values transport fec profile =
    is_valid_transport_mode_value transport
    && is_valid_fec_mode_value fec
    && is_valid_kcp_profile_value profile
    && not_tcp_fec
  where
    not_tcp_fec : Bool
    not_tcp_fec = if transport == 3 then fec == 0 else true
