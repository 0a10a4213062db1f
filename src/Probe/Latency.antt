-- ===== src/Probe/Latency.antt =====
-- The round trip time that is shown is that of a reply in time.
use vlan_connect.Prelude.{
  ◌==◌, Bool-cases, All-append, ℕ, ◌<◌, ◌≡◌, refl, inl, inr, Bool, true, false, not, some, List, [],
  ◌∷◌, arith,
}
use vlan_connect.Probe.{
  timeout_ms, new_probe, ProbeQualityTracker, new_tracker, reset, suspend, set_path, expire,
  begin_probe, complete_send, report_transport_send, reply, latency_ms,
}
use vlan_connect.Probe.Snapshot.{snapshot}
use vlan_connect.Probe.Valid.{
  EarlyInTime, IsValid, settled_probes-All, fail_pending-All, expire-IsValid, if-IsValid,
  complete_send-IsValid, reply-IsValid,
}

-- The calls of the tracker.
pub data Call : Type 0 where
  call_path : ℕ → Call
  call_suspend call_reset : Call
  call_begin call_reply : ℕ → ℕ → Call
  call_complete : ℕ → ℕ → Bool → Call
  call_transport : ℕ → Bool → Call
  call_snapshot : ℕ → Call

abbrev pub apply : Call → ProbeQualityTracker → ProbeQualityTracker
apply (call_path kind) t = set_path kind t
apply call_suspend t = suspend t
apply call_reset t = reset t
apply (call_begin now id) t = begin_probe now id t
apply (call_reply id now) t = (reply id now t).1
apply (call_complete id now success) t = complete_send id now success t
apply (call_transport now success) t = report_transport_send now success t
apply (call_snapshot now) t = (snapshot now t).1

abbrev pub apply_all : List Call → ProbeQualityTracker → ProbeQualityTracker
apply_all [] t = t
apply_all (c ∷ cs) t = apply_all cs (apply c t)

reset-IsValid : (t : ProbeQualityTracker) → IsValid (reset t)
unfolding reset
reset-IsValid t = record {
  recovery = omega arith;
  no_outage = λ e. refl;
  in_time = λ ms e. cc;
  early = tt;
}

suspend-IsValid : (t : ProbeQualityTracker) → IsValid t → IsValid (suspend t)
unfolding suspend
suspend-IsValid t v = record {
  recovery = v.recovery;
  no_outage = v.no_outage;
  in_time = v.in_time;
  early = settled_probes-All t.probes v.early;
}

set_path-IsValid : (kind : ℕ) (t : ProbeQualityTracker) → IsValid t → IsValid (set_path kind t)
unfolding set_path
set_path-IsValid kind t v = elim (Bool-cases (kind == 0)) [
  | inl down ↦ rw (set_path, down) (suspend-IsValid t v)
  | inr up ↦ elim (Bool-cases (not (t.path_kind == kind))) [
    | inl other ↦
        let r = reset-IsValid t in
        rw (set_path, up, other)
          (record {
            recovery = r.recovery;
            no_outage = r.no_outage;
            in_time = r.in_time;
            early = r.early;
          })
    | inr same ↦
        rw (set_path, up, same)
          (record {
            recovery = v.recovery;
            no_outage = v.no_outage;
            in_time = v.in_time;
            early = v.early;
          })
  ]
]

begin_probe-IsValid :
    (now id : ℕ) (t : ProbeQualityTracker) → IsValid t → IsValid (begin_probe now id t)
unfolding begin_probe EarlyInTime
begin_probe-IsValid now id t v =
    let v' = expire-IsValid now t v in
    if-IsValid (expire now t).enabled _ _
      (λ on. record {
        recovery = v'.recovery;
        no_outage = v'.no_outage;
        in_time = v'.in_time;
        early =
            All-append EarlyInTime (expire now t).probes (new_probe id now ∷ []) v'.early
              ((λ e. cc), tt);
      })
      (λ off. v')

report_transport_send-IsValid :
    (now : ℕ) (success : Bool) (t : ProbeQualityTracker)
    → IsValid t
    → IsValid (report_transport_send now success t)
unfolding report_transport_send
report_transport_send-IsValid now true t v =
    let v' = expire-IsValid now t v in
    record {
      recovery = v'.recovery;
      no_outage = v'.no_outage;
      in_time = v'.in_time;
      early = v'.early;
    }
report_transport_send-IsValid now false t v =
    let v' = expire-IsValid now t v in
    record {
      recovery = v'.recovery;
      no_outage = v'.no_outage;
      in_time = v'.in_time;
      early = fail_pending-All (expire now t).probes v'.early;
    }

apply-IsValid : (c : Call) (t : ProbeQualityTracker) → IsValid t → IsValid (apply c t)
unfolding snapshot
apply-IsValid (call_path kind) t v = set_path-IsValid kind t v
apply-IsValid call_suspend t v = suspend-IsValid t v
apply-IsValid call_reset t v = reset-IsValid t
apply-IsValid (call_begin now id) t v = begin_probe-IsValid now id t v
apply-IsValid (call_reply id now) t v = reply-IsValid id now t v
apply-IsValid (call_complete id now success) t v = complete_send-IsValid id now success t v
apply-IsValid (call_transport now success) t v = report_transport_send-IsValid now success t v
apply-IsValid (call_snapshot now) t v = expire-IsValid now t v

apply_all-IsValid :
    (cs : List Call) (t : ProbeQualityTracker) → IsValid t → IsValid (apply_all cs t)
apply_all-IsValid [] t v = v
apply_all-IsValid (c ∷ cs) t v = apply_all-IsValid cs (apply c t) (apply-IsValid c t v)

-- Whatever calls are made of a new tracker, a snapshot shows no round trip time of 10 seconds or
-- more, and at most one reply is counted towards the end of an outage, none outside of one.
pub snapshot_rtt :
    (cs : List Call) (now : ℕ)
    → let (shown, t) = snapshot now (apply_all cs new_tracker) in
      ((ms : ℕ) → shown.rtt_ms ≡ some ms → ms < timeout_ms)
      × (t.recovery_replies < 2)
      × (shown.in_outage ≡ false → t.recovery_replies ≡ 0)
unfolding snapshot latency_ms new_tracker
snapshot_rtt cs now =
    let start : IsValid new_tracker = record {
      recovery = omega arith;
      no_outage = λ e. refl;
      in_time = λ ms e. cc;
      early = tt;
    } in
    let v = expire-IsValid now _ (apply_all-IsValid cs new_tracker start) in
    ((λ ms e. v.in_time ms (ground arith)), v.recovery, v.no_outage)
