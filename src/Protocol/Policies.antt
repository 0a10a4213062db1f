-- ===== src/Protocol/Policies.antt =====
-- What normalisation of a policy guarantees.
use vlan_connect.Prelude.{ℕ, ◌≡◌, true, arith}
use vlan_connect.Protocol.Policy.{
  TransportMode, FecMode, fec_none, transport_value, fec_value, profile_value, is_tcp,
  RoomTrafficPolicy, normalize_traffic_policy, is_valid_policy_values,
}

-- A policy that may be stored in a room: no FEC over the TCP relay.
abbrev pub IsCanonical : RoomTrafficPolicy → Type 0
IsCanonical p = is_tcp p.transport_mode ≡ true → p.fec_mode ≡ fec_none

-- Whatever bytes arrive and whatever the fallback is, the normalised policy is canonical.
pub normalize_traffic_policy-IsCanonical :
    (t f k : ℕ) (fallback : RoomTrafficPolicy)
    → IsCanonical (normalize_traffic_policy t f k fallback)
unfolding normalize_traffic_policy
normalize_traffic_policy-IsCanonical t f k fallback = λ h. ground arith

-- The three wire values of a canonical policy pass the validity check and normalise to that policy.
pub normalize_traffic_policy_roundtrip :
    (p fallback : RoomTrafficPolicy)
    → IsCanonical p
    → (is_valid_policy_values
          (transport_value p.transport_mode)
          (fec_value p.fec_mode)
          (profile_value p.kcp_profile)
        ≡ true)
      × (normalize_traffic_policy
            (transport_value p.transport_mode)
            (fec_value p.fec_mode)
            (profile_value p.kcp_profile)
            fallback
          ≡ p)
unfolding normalize_traffic_policy is_valid_policy_values
normalize_traffic_policy_roundtrip p fallback c =
    (by_modes p.transport_mode p.fec_mode c, ground arith)
  where
    by_modes :
        (t : TransportMode) (f : FecMode)
        → (is_tcp t ≡ true → f ≡ fec_none)
        → is_valid_policy_values (transport_value t) (fec_value f) (profile_value p.kcp_profile)
          ≡ true
    by_modes t f h = ground arith

-- Values that pass the validity check are kept as they are: no fallback is used, and the wire
-- values of the normalised policy are the values that came in.
pub normalize_traffic_policy_valid :
    (t f k : ℕ) (fallback : RoomTrafficPolicy)
    → is_valid_policy_values t f k ≡ true
    → let p = normalize_traffic_policy t f k fallback in
      (transport_value p.transport_mode ≡ t)
      × (fec_value p.fec_mode ≡ f)
      × (profile_value p.kcp_profile ≡ k)
unfolding normalize_traffic_policy is_valid_policy_values
normalize_traffic_policy_valid t f k fallback h = ground arith
