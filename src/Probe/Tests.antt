-- ===== src/Probe/Tests.antt =====
-- A path with one probe, sent and answered.
use vlan_connect.Prelude.{ℕ, ◌<◌, ◌≡◌, true, false, some, List, [], ◌∷◌}
use vlan_connect.Probe.{timeout_ms, ProbeQualityTracker, new_tracker}
use vlan_connect.Probe.Snapshot.{snapshot}
use vlan_connect.Probe.Latency.{
  Call, call_path, call_begin, call_reply, call_complete, apply_all, snapshot_rtt,
}

abbrev calls : List Call
calls = call_path 1 ∷ call_begin 1000 7 ∷ call_complete 7 1010 true ∷ call_reply 7 1040 ∷ []

abbrev answered : ProbeQualityTracker
answered = apply_all calls new_tracker

snapshot_rtt_example :
    let (shown, t) = snapshot 2000 answered in
    ((ms : ℕ) → shown.rtt_ms ≡ some ms → ms < timeout_ms)
    × (t.recovery_replies < 2)
    × (shown.in_outage ≡ false → t.recovery_replies ≡ 0)
snapshot_rtt_example = snapshot_rtt calls 2000
