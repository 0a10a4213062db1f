-- ===== src/Overlay/Tests.antt =====
-- A packet of 20 bytes from 10.10.0.2 to 10.10.0.3.
use vlan_connect.Prelude.{replicate, ℕ, ◌+◌, ◌≡◌, ◌≢◌, ◌↔◌, ◌⊎◌, true, List, [], ◌∷◌, ◌++◌}
use vlan_connect.Protocol.Constants.{vnet_subnet, vnet_broadcast}
use vlan_connect.Overlay.{
  is_valid, read_overlay_address, broadcast, validate_inbound_overlay_ipv4,
  validate_outbound_overlay_ipv4, validate-inbound-outbound,
}

abbrev packet : List ℕ
packet = 0x45 ∷ 0 ∷ 0 ∷ 20 ∷ replicate 8 0 ++ (10 ∷ 10 ∷ 0 ∷ 2 ∷ 10 ∷ 10 ∷ 0 ∷ 3 ∷ [])

abbrev local_address : ℕ
local_address = vnet_subnet + 3

validate-inbound-outbound_example :
    (is_valid (validate_inbound_overlay_ipv4 packet 1400 (vnet_subnet + 2) local_address) ≡ true)
    ↔ ((is_valid (validate_outbound_overlay_ipv4 packet 1400 (vnet_subnet + 2)) ≡ true)
        × (local_address ≢ 0)
        × ((read_overlay_address packet 16 ≡ local_address)
            ⊎ ((read_overlay_address packet 16 ≡ vnet_broadcast)
                ⊎ (read_overlay_address packet 16 ≡ broadcast))))
validate-inbound-outbound_example =
    validate-inbound-outbound packet 1400 (vnet_subnet + 2) local_address
