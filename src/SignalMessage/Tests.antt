-- ===== src/SignalMessage/Tests.antt =====
-- Relay data from peer 11 to peer 12, and the same with a wrong traffic class.
use vlan_connect.Prelude.{length, ℕ, ◌≡◌, List, [], ◌∷◌}
use vlan_connect.Protocol.Constants.{msg_tcp_relay_data}
use vlan_connect.Room.Leases.{is_some}
use vlan_connect.ClientMessage.{validate_client_signal_payload}
use vlan_connect.SignalMessage.Cursor.{new_cursor}
use vlan_connect.SignalMessage.Checks.{relay_data}
use vlan_connect.SignalMessage.Errors.{IsOutcome, relay_data_lem}
use vlan_connect.SignalMessage.Agree.{relay_data-validate_client_signal_payload}

abbrev message : List ℕ
message = 0 ∷ 0 ∷ 0 ∷ 11 ∷ 0 ∷ 0 ∷ 0 ∷ 12 ∷ 1 ∷ 7 ∷ []

abbrev wrong : List ℕ
wrong = 0 ∷ 0 ∷ 0 ∷ 11 ∷ 0 ∷ 0 ∷ 0 ∷ 12 ∷ 9 ∷ []

relay_data_lem_example : IsOutcome wrong (length wrong) (relay_data (new_cursor wrong))
relay_data_lem_example = relay_data_lem wrong

relay_data-validate_client_signal_payload_example :
    is_some (relay_data (new_cursor message)).0
    ≡ validate_client_signal_payload msg_tcp_relay_data message
relay_data-validate_client_signal_payload_example =
    relay_data-validate_client_signal_payload message
