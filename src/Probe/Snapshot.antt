-- ===== src/Probe/Snapshot.antt =====
-- ProbeQualityTracker::snapshot: what is shown of a path.
use vlan_connect.Prelude.{
  ltb, ◌==◌, if◌then◌else◌, ℕ, ◌+◌, ◌*◌, Bool, ◌&&◌, ◌||◌, Option, List, [], ◌∷◌,
}
use vlan_connect.Probe.{
  min_samples, pending, replied, timed_out, send_failed, Probe, ProbeQualityTracker, expire,
  latency_ms,
}

pub record Counts : Type 0 where
  pub replies : ℕ
  pub timeouts : ℕ
  pub send_failures : ℕ
  pub waiting : ℕ

unfoldable pub count_probe : Probe → Counts → Counts
count_probe p c = elim p.state [
  | replied ↦ record c { replies = c.replies + 1 }
  | timed_out ↦ record c { timeouts = c.timeouts + 1 }
  | send_failed ↦ record c { send_failures = c.send_failures + 1 }
  | pending ↦ if p.committed then record c { waiting = c.waiting + 1 } else c
]

unfoldable pub count_probes : List Probe → Counts → Counts
count_probes [] c = c
count_probes (p ∷ ps) c = count_probes ps (count_probe p c)

pub record ProbeQualitySnapshot : Type 0 where
  pub active : Bool
  pub in_outage : Bool
  pub local_send_failure : Bool
  pub sampling : Bool
  pub counts : Counts
  pub rtt_ms : Option ℕ
  pub timeout_percent : ℕ × ℕ

unfoldable pub snapshot : ℕ → ProbeQualityTracker → ProbeQualitySnapshot × ProbeQualityTracker
snapshot now t0 =
    let t = expire now t0 in
    let c =
      count_probes t.probes
        (record { replies = 0; timeouts = 0; send_failures = 0; waiting = 0 }) in
    let settled = c.replies + c.timeouts in
    (
      record {
        active = t.enabled && t.started;
        in_outage = t.outage;
        local_send_failure = t.queue_send_failure || t.transport_send_failure;
        sampling = ltb settled min_samples;
        counts = c;
        rtt_ms = latency_ms now t;
        timeout_percent = if settled == 0 then (0, 1) else (100 * c.timeouts, settled);
      },
      t,
    )
