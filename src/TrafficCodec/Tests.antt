-- ===== src/TrafficCodec/Tests.antt =====
-- The default policy of UDP, read with another fallback.
use vlan_connect.Prelude.{◌≡◌, refl, some, [], ◌∷◌, ◌++◌}
use vlan_connect.Protocol.Policy.{make_default_tcp_policy, make_default_udp_policy}
use vlan_connect.ByteBuffer.{from_bytes}
use vlan_connect.ByteBuffer.Refine.{view}
use vlan_connect.ClientMessage.CreateRoom.{policy_bytes}
use vlan_connect.TrafficCodec.{read_traffic_policy, read_traffic_policy-policy_bytes}

read_traffic_policy-policy_bytes_example :
    view (
      read_traffic_policy make_default_tcp_policy
        (from_bytes (policy_bytes make_default_udp_policy ++ (7 ∷ []))))
    ≡ some (make_default_udp_policy, 7 ∷ [])
read_traffic_policy-policy_bytes_example =
    read_traffic_policy-policy_bytes make_default_udp_policy make_default_tcp_policy (7 ∷ [])
      (λ e. refl)
