-- ===== src/TrafficCodec.antt =====
-- readTrafficPolicy (common/traffic_policy_codec.h): a policy out of three bytes of a message.
mod Tests
use vlan_connect.Prelude.{◌>>=◌, ◌>>◌, return, ℕ, ◌≡◌, ap, ◌∙◌, some, List, ◌++◌}
use vlan_connect.Protocol.Policy.{RoomTrafficPolicy, normalize_traffic_policy}
use vlan_connect.Protocol.Policies.{IsCanonical, normalize_traffic_policy_roundtrip}
use vlan_connect.ByteBuffer.{from_bytes, Read, read_u8}
use vlan_connect.ByteBuffer.Parser.{Parse, p_u8}
use vlan_connect.ByteBuffer.Refine.{view, Refines, reads}
use vlan_connect.ClientMessage.CreateRoom.{policy_bytes}

unfoldable pub read_traffic_policy : RoomTrafficPolicy → Read RoomTrafficPolicy
read_traffic_policy fallback = do
  transport ← read_u8
  fec ← read_u8
  profile ← read_u8
  return (normalize_traffic_policy transport fec profile fallback)

-- The same on the bytes that are left.
unfoldable pub parse_traffic_policy : RoomTrafficPolicy → Parse RoomTrafficPolicy
parse_traffic_policy fallback = do
  transport ← p_u8
  fec ← p_u8
  profile ← p_u8
  return (normalize_traffic_policy transport fec profile fallback)

read_traffic_policy-Refines :
    (fallback : RoomTrafficPolicy)
    → Refines (read_traffic_policy fallback) (parse_traffic_policy fallback)
unfolding read_traffic_policy parse_traffic_policy
read_traffic_policy-Refines fallback = search reads depth 20

pub parse_traffic_policy_of :
    (p fallback : RoomTrafficPolicy) (rest : List ℕ)
    → IsCanonical p
    → parse_traffic_policy fallback (policy_bytes p ++ rest) ≡ some (p, rest)
unfolding parse_traffic_policy policy_bytes p_u8
parse_traffic_policy_of p fallback rest c =
    ap (λ q. some (q, rest)) (normalize_traffic_policy_roundtrip p fallback c).1

-- A policy without FEC over TCP that was written is read back, whatever the fallback is, and what
-- follows it is left to read.
pub read_traffic_policy-policy_bytes :
    (p fallback : RoomTrafficPolicy) (rest : List ℕ)
    → IsCanonical p
    → view (read_traffic_policy fallback (from_bytes (policy_bytes p ++ rest))) ≡ some (p, rest)
unfolding from_bytes
read_traffic_policy-policy_bytes p fallback rest c =
    (read_traffic_policy-Refines fallback).run (from_bytes (policy_bytes p ++ rest))
    ∙ parse_traffic_policy_of p fallback rest c
