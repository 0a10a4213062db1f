-- ===== src/Probe.antt =====
-- common/probe_quality.h: which probes of a path were answered, and whether the path is out.
-- Times are unsigned 32-bit milliseconds that wrap around; the echo identifier of a probe is an
-- argument. The member `m_rtt` is an `int` that is -1 before the first reply: that is `none`. The
-- percentage of a snapshot is kept as its numerator and denominator.
pub mod Snapshot
pub mod Valid
pub mod Latency
mod Tests
use vlan_connect.Prelude.{
  ltb, leb, ◌==◌, if◌then◌else◌, ℕ, ◌+◌, ◌-◌, ◌%◌, ◌^◌, Bool, true, false, not, ◌&&◌, ◌||◌, Option,
  none, some, List, [], ◌∷◌, ◌++◌,
}

abbrev pub window_ms : ℕ
window_ms = 60000

abbrev pub timeout_ms : ℕ
timeout_ms = 10000

abbrev pub min_samples : ℕ
min_samples = 5

-- Subtraction of `uint32_t`, and the test `static_cast<int32_t>(x) >= 0`.
abbrev pub sub32 : ℕ → ℕ → ℕ
sub32 a b = (a + 2 ^ 32 - b) % 2 ^ 32

abbrev pub is_nonnegative32 : ℕ → Bool
is_nonnegative32 x = ltb x (2 ^ 31)

pub data ProbeState : Type 0 where
  pending replied timed_out send_failed : ProbeState

abbrev pub is_pending : ProbeState → Bool
is_pending pending = true
is_pending _ = false

pub record Probe : Type 0 where
  pub id : ℕ
  pub sent : ℕ
  pub reply_at : ℕ
  pub state : ProbeState
  pub committed : Bool
  pub early_reply : Bool

abbrev pub new_probe : ℕ → ℕ → Probe
new_probe token time = record {
  id = token;
  sent = time;
  reply_at = 0;
  state = pending;
  committed = false;
  early_reply = false;
}

pub record ProbeQualityTracker : Type 0 where
  pub probes : List Probe
  pub path_kind : ℕ
  pub enabled : Bool
  pub started : Bool
  pub outage : Bool
  pub queue_send_failure : Bool
  pub transport_send_failure : Bool
  pub has_reply : Bool
  pub reference : ℕ
  pub last_reply : ℕ
  pub rtt : Option ℕ
  pub recovery_replies : ℕ

unfoldable pub new_tracker : ProbeQualityTracker
new_tracker = record {
  probes = [];
  path_kind = 0;
  enabled = false;
  started = false;
  outage = false;
  queue_send_failure = false;
  transport_send_failure = false;
  has_reply = false;
  reference = 0;
  last_reply = 0;
  rtt = none;
  recovery_replies = 0;
}

unfoldable pub reset : ProbeQualityTracker → ProbeQualityTracker
reset t = record t {
  probes = [];
  started = false;
  outage = false;
  queue_send_failure = false;
  transport_send_failure = false;
  has_reply = false;
  reference = 0;
  last_reply = 0;
  rtt = none;
  recovery_replies = 0;
}

-- The first probe of that identifier that waits for its reply, and a write through the pointer to it.
unfoldable pub find_pending : ℕ → List Probe → Option Probe
find_pending id [] = none
find_pending id (p ∷ ps) =
    let later = find_pending id ps in if p.id == id && is_pending p.state then some p else later

unfoldable pub put_pending : ℕ → Probe → List Probe → List Probe
put_pending id q [] = []
put_pending id q (p ∷ ps) =
    let later = put_pending id q ps in
    if p.id == id && is_pending p.state then q ∷ ps else p ∷ later

unfoldable pub settled_probes : List Probe → List Probe
settled_probes [] = []
settled_probes (p ∷ ps) =
    let later = settled_probes ps in if is_pending p.state then later else p ∷ later

unfoldable pub suspend : ProbeQualityTracker → ProbeQualityTracker
suspend t = record t { enabled = false; probes = settled_probes t.probes }

unfoldable pub set_path : ℕ → ProbeQualityTracker → ProbeQualityTracker
set_path kind t =
    if kind == 0
    then suspend t
    else if not (t.path_kind == kind)
    then record (reset t) { path_kind = kind; enabled = true }
    else record t { enabled = true }

unfoldable pub times_out : ℕ → Probe → Bool
times_out now p = is_pending p.state && p.committed && leb timeout_ms (sub32 now p.sent)

unfoldable pub expire_probes : ℕ → List Probe → List Probe
expire_probes now [] = []
expire_probes now (p ∷ ps) =
    let later = expire_probes now ps in
    (if times_out now p then record p { state = timed_out } else p) ∷ later

-- Whether the loop of `expire` clears the count of the replies after an outage.
unfoldable pub clears_recovery : ℕ → ProbeQualityTracker → List Probe → Bool
clears_recovery now t [] = false
clears_recovery now t (p ∷ ps) =
    let later = clears_recovery now t ps in
    (times_out now p && (not t.has_reply || is_nonnegative32 (sub32 p.sent t.last_reply))) || later

unfoldable pub drop_old : ℕ → List Probe → List Probe
drop_old now [] = []
drop_old now (p ∷ ps) =
    let later = drop_old now ps in if leb window_ms (sub32 now p.sent) then later else p ∷ ps

unfoldable pub is_silent : ℕ → ProbeQualityTracker → Bool
is_silent now t =
    t.enabled
    && t.started
    && not t.queue_send_failure
    && not t.transport_send_failure
    && leb timeout_ms (sub32 now t.reference)

unfoldable pub expire : ℕ → ProbeQualityTracker → ProbeQualityTracker
expire now t = record t {
  probes = drop_old now (expire_probes now t.probes);
  outage = if is_silent now t then true else t.outage;
  recovery_replies =
      if is_silent now t || clears_recovery now t t.probes then 0 else t.recovery_replies;
}

-- `acceptReply` on the fields of the tracker; the probe itself becomes `replied`.
unfoldable pub accept_reply : Probe → ℕ → ProbeQualityTracker → ProbeQualityTracker
accept_reply p now t =
    let recovered = leb 2 (t.recovery_replies + 1) in
    record t {
      rtt = some (sub32 now p.sent);
      has_reply = true;
      last_reply = now;
      reference = now;
      outage = if t.outage && recovered then false else t.outage;
      recovery_replies =
          if t.outage
          then (if recovered then 0 else t.recovery_replies + 1)
          else t.recovery_replies;
    }

unfoldable pub begin_probe : ℕ → ℕ → ProbeQualityTracker → ProbeQualityTracker
begin_probe now id t =
    let t' = expire now t in
    if t'.enabled then record t' { probes = t'.probes ++ (new_probe id now ∷ []) } else t'

-- What `completeSend` does to the pending probe that it found.
unfoldable pub finish_send : Probe → ℕ → Bool → ProbeQualityTracker → ProbeQualityTracker
finish_send p now success t =
    let was_local_failure = t.queue_send_failure || t.transport_send_failure in
    if not success || t.transport_send_failure
    then record t {
      queue_send_failure = not success;
      probes = put_pending p.id (record p { state = send_failed; early_reply = false }) t.probes;
    }
    else let t1 = record t {
      queue_send_failure = false;
      reference =
          if not t.started || (was_local_failure && not t.outage) then p.sent else t.reference;
      started = true;
      probes =
          put_pending p.id
            (record p { committed = true; state = if p.early_reply then replied else p.state })
            t.probes;
    } in
      expire now (if p.early_reply then accept_reply p p.reply_at t1 else t1)

unfoldable pub complete_send : ℕ → ℕ → Bool → ProbeQualityTracker → ProbeQualityTracker
complete_send id now success t = elim (find_pending id t.probes) [
  | none ↦ t
  | some p ↦ finish_send p now success t
]

unfoldable pub fail_pending : List Probe → List Probe
fail_pending [] = []
fail_pending (p ∷ ps) =
    let later = fail_pending ps in
    (if is_pending p.state then record p { state = send_failed; early_reply = false } else p)
    ∷ later

unfoldable pub report_transport_send : ℕ → Bool → ProbeQualityTracker → ProbeQualityTracker
report_transport_send now success t =
    let t' = expire now t in
    if success
    then record t' {
      transport_send_failure = false;
      reference = if t'.transport_send_failure && not t'.outage then now else t'.reference;
    }
    else record t' { transport_send_failure = true; probes = fail_pending t'.probes }

-- What `reply` does to the pending probe that it found, after `expire`.
unfoldable pub answer : Probe → ℕ → ProbeQualityTracker → Bool × ProbeQualityTracker
answer p now t =
    if not t.enabled || leb timeout_ms (sub32 now p.sent)
    then (false, t)
    else if not p.committed
    then (if p.early_reply then (false, t) else (
      true,
      record t {
        probes = put_pending p.id (record p { early_reply = true; reply_at = now }) t.probes;
      },
    ))
    else (
      true,
      accept_reply p now
          (record t { probes = put_pending p.id (record p { state = replied }) t.probes }),
    )

unfoldable pub reply : ℕ → ℕ → ProbeQualityTracker → Bool × ProbeQualityTracker
reply id now t =
    let t' = expire now t in
    elim (find_pending id t'.probes) [ none ↦ (false, t') | some p ↦ answer p now t' ]

unfoldable pub latency_ms : ℕ → ProbeQualityTracker → Option ℕ
latency_ms now t =
    if not t.enabled || not t.has_reply || leb timeout_ms (sub32 now t.last_reply)
    then none
    else t.rtt
