-- ===== src/SignalMessage/Checks.antt =====
-- validatePeerInfo and validateRelayData of common/signal_message_validator.h.
use vlan_connect.Prelude.{◌==◌, Bool, true, not, ◌&&◌, ◌||◌}
use vlan_connect.Protocol.Constants.{min_player_name_len, max_player_name_len}
use vlan_connect.Protocol.Traffic.{traffic_tcp, traffic_udp, traffic_value}
use vlan_connect.SignalMessage.Cursor.{
  invalid_traffic_class, invalid_value, left, Field, field_u8, field_u32, skip_bytes, and_then,
  reject_if, field_string, finish_field,
}

unfoldable pub peer_info : Field Bool
peer_info = and_then field_u32 (λ peer. and_then field_u32 (λ ip.
    and_then (field_string min_player_name_len max_player_name_len true) (λ name.
      and_then (reject_if (peer == 0 || ip == 0) invalid_value 0 true) (λ ok. finish_field))))

unfoldable pub relay_data : Field Bool
relay_data = and_then field_u32 (λ source. and_then field_u32 (λ destination.
    and_then field_u8 (λ class.
      and_then (reject_if (source == 0 || destination == 0) invalid_value 0 true) (λ ok.
        and_then
          (reject_if
            (not (class == traffic_value traffic_tcp) && not (class == traffic_value traffic_udp))
            invalid_traffic_class 8 true)
          (λ ok c. and_then (skip_bytes (left c)) (λ ok. finish_field) c)))))
