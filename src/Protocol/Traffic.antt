-- ===== src/Protocol/Traffic.antt =====
-- trafficClassFromIpPacket and policyForTraffic of common/protocol.h, extractSrcIP, extractDstIP
-- and isBroadcast of common/net_common.h. A packet is its list of bytes.
use vlan_connect.Prelude.{
  ltb, ◌==◌, if◌then◌else◌, length, get_or, ℕ, ◌+◌, ◌*◌, ◌/◌, ◌%◌, ◌^◌, Bool, not, ◌||◌, List,
}
use vlan_connect.Protocol.Policy.{RoomTrafficPolicy}

pub data TrafficClass : Type 0 where
  traffic_tcp traffic_udp : TrafficClass

abbrev pub traffic_value : TrafficClass → ℕ
traffic_value traffic_tcp = 1
traffic_value traffic_udp = 2

unfoldable pub policy_for_traffic :
    RoomTrafficPolicy → RoomTrafficPolicy → TrafficClass → RoomTrafficPolicy
policy_for_traffic tcp udp traffic_tcp = tcp
policy_for_traffic tcp udp traffic_udp = udp

-- `uint8_t ihl = (ipPacket[0] & 0x0F) * 4`
unfoldable pub traffic_class_from_ip_packet : List ℕ → TrafficClass
traffic_class_from_ip_packet p =
    let b0 = get_or p 0 0 in
    let ihl = b0 % 16 * 4 in
    if ltb (length p) 20
    then traffic_udp
    else if not (b0 / 16 % 16 == 4)
    then traffic_udp
    else if ltb ihl 20 || ltb (length p) ihl
    then traffic_udp
    else if get_or p 9 0 == 6
    then traffic_tcp
    else traffic_udp

-- Four bytes in network order: `p[i] << 24 | p[i + 1] << 16 | p[i + 2] << 8 | p[i + 3]`.
abbrev pub be32 : ℕ → ℕ → ℕ → ℕ → ℕ
be32 a b c d = a * 2 ^ 24 + b * 2 ^ 16 + c * 2 ^ 8 + d

unfoldable pub extract_dst_ip : List ℕ → ℕ
extract_dst_ip p =
    if ltb (length p) 20
    then 0
    else if not (get_or p 0 0 / 16 % 16 == 4)
    then 0
    else be32 (get_or p 16 0) (get_or p 17 0) (get_or p 18 0) (get_or p 19 0)

unfoldable pub extract_src_ip : List ℕ → ℕ
extract_src_ip p =
    if ltb (length p) 20
    then 0
    else if not (get_or p 0 0 / 16 % 16 == 4)
    then 0
    else be32 (get_or p 12 0) (get_or p 13 0) (get_or p 14 0) (get_or p 15 0)

unfoldable pub is_broadcast : ℕ → Bool
is_broadcast ip = ip == 0xFFFFFFFF || ip % 256 == 0xFF
