-- ===== src/Probe/Valid.antt =====
-- The invariant of the tracker, and the calls that answer probes.
use vlan_connect.Prelude.{
  leb, ◌==◌, if◌then◌else◌, Bool-cases, Option-cases, All, ℕ, ◌<◌, ◌≡◌, refl, subst, inl, inr, Bool,
  true, false, not, ◌&&◌, ◌||◌, some, List, [], ◌∷◌, arith,
}
use vlan_connect.Probe.{
  timeout_ms, sub32, replied, send_failed, is_pending, Probe, ProbeQualityTracker, find_pending,
  put_pending, settled_probes, expire_probes, drop_old, expire, accept_reply, finish_send,
  complete_send, fail_pending, answer, reply,
}

-- A reply that came before its probe was committed came in time.
unfoldable pub EarlyInTime : Probe → Type 0
EarlyInTime p =
    p.early_reply ≡ true → is_pending p.state ≡ true → sub32 p.reply_at p.sent < timeout_ms

pub record IsValid (t : ProbeQualityTracker) : Type 0 where
  pub recovery : t.recovery_replies < 2
  pub no_outage : t.outage ≡ false → t.recovery_replies ≡ 0
  pub in_time : (ms : ℕ) → t.rtt ≡ some ms → ms < timeout_ms
  pub early : All EarlyInTime t.probes

expire_probes-All :
    (now : ℕ) (ps : List Probe) → All EarlyInTime ps → All EarlyInTime (expire_probes now ps)
unfolding expire_probes EarlyInTime
expire_probes-All now [] h = tt
expire_probes-All now (p ∷ ps) h = (ground arith, expire_probes-All now ps h.1)

drop_old-All : (now : ℕ) (ps : List Probe) → All EarlyInTime ps → All EarlyInTime (drop_old now ps)
unfolding drop_old
drop_old-All now [] h = tt
drop_old-All now (p ∷ ps) h = ground (arith, drop_old-All now ps h.1)

pub settled_probes-All :
    (ps : List Probe) → All EarlyInTime ps → All EarlyInTime (settled_probes ps)
unfolding settled_probes
settled_probes-All [] h = tt
settled_probes-All (p ∷ ps) h = ground (arith, settled_probes-All ps h.1)

pub fail_pending-All : (ps : List Probe) → All EarlyInTime ps → All EarlyInTime (fail_pending ps)
unfolding fail_pending EarlyInTime
fail_pending-All [] h = tt
fail_pending-All (p ∷ ps) h = (ground arith, fail_pending-All ps h.1)

put_pending-All :
    (id : ℕ) (q : Probe) (ps : List Probe)
    → EarlyInTime q
    → All EarlyInTime ps
    → All EarlyInTime (put_pending id q ps)
unfolding put_pending
put_pending-All id q [] hq h = tt
put_pending-All id q (p ∷ ps) hq h = ground (arith, put_pending-All id q ps hq h.1)

find_pending-All :
    (id : ℕ) (ps : List Probe) (p : Probe)
    → All EarlyInTime ps
    → find_pending id ps ≡ some p
    → EarlyInTime p × (is_pending p.state ≡ true) × (p.id ≡ id)
unfolding find_pending
find_pending-All id [] p h e = cc
find_pending-All id (q ∷ ps) p h e = elim (Bool-cases (q.id == id && is_pending q.state)) [
  | inl hit ↦
      let same : q ≡ p = ground arith in
      subst (λ p. EarlyInTime p × (is_pending p.state ≡ true) × (p.id ≡ id)) same
        (h.0, ground arith, ground arith)
  | inr miss ↦ find_pending-All id ps p h.1 (ground arith)
]

pub expire-IsValid : (now : ℕ) (t : ProbeQualityTracker) → IsValid t → IsValid (expire now t)
unfolding expire
expire-IsValid now t v = record {
  recovery = ground (arith, v.recovery);
  no_outage = λ e. ground (arith, v.no_outage);
  in_time = v.in_time;
  early = drop_old-All now _ (expire_probes-All now t.probes v.early);
}

accept_reply-IsValid :
    (p : Probe) (now : ℕ) (t : ProbeQualityTracker)
    → sub32 now p.sent < timeout_ms
    → IsValid t
    → IsValid (accept_reply p now t)
unfolding accept_reply
accept_reply-IsValid p now t soon v = record {
  recovery = ground (arith, v.recovery);
  no_outage = λ e. ground (arith, v.no_outage);
  in_time = λ ms e. ground arith;
  early = v.early;
}

pub if-IsValid :
    (c : Bool) (x y : ProbeQualityTracker)
    → (c ≡ true → IsValid x)
    → (c ≡ false → IsValid y)
    → IsValid (if c then x else y)
if-IsValid true x y hx hy = hx refl
if-IsValid false x y hx hy = hy refl

-- A write to a pending probe keeps the invariant, if the new value came in time.
put-IsValid :
    (id : ℕ) (q : Probe) (t : ProbeQualityTracker)
    → EarlyInTime q
    → IsValid t
    → IsValid (record t { probes = put_pending id q t.probes })
put-IsValid id q t hq v = record {
  recovery = v.recovery;
  no_outage = v.no_outage;
  in_time = v.in_time;
  early = put_pending-All id q t.probes hq v.early;
}

finish_send-IsValid :
    (p : Probe) (now : ℕ) (success : Bool) (t : ProbeQualityTracker)
    → EarlyInTime p
    → is_pending p.state ≡ true
    → IsValid t
    → IsValid (finish_send p now success t)
unfolding finish_send EarlyInTime
finish_send-IsValid p now success t h waits v =
    if-IsValid (not success || t.transport_send_failure) _ _ (λ failed. failed_send)
      (λ sent. expire-IsValid now _ sent_on)
  where
    failed_send : IsValid (record t {
      queue_send_failure = not success;
      probes = put_pending p.id (record p { state = send_failed; early_reply = false }) t.probes;
    })
    failed_send = record {
      recovery = v.recovery;
      no_outage = v.no_outage;
      in_time = v.in_time;
      early = put_pending-All p.id _ t.probes (λ e w. cc) v.early;
    }

    sent_probe : Probe
    sent_probe = record p { committed = true; state = if p.early_reply then replied else p.state }

    sent_tracker : ProbeQualityTracker
    sent_tracker = record t {
      queue_send_failure = false;
      reference =
          if not t.started || ((t.queue_send_failure || t.transport_send_failure) && not t.outage)
          then p.sent
          else t.reference;
      started = true;
      probes = put_pending p.id sent_probe t.probes;
    }

    sent_valid : IsValid sent_tracker
    sent_valid = record {
      recovery = v.recovery;
      no_outage = v.no_outage;
      in_time = v.in_time;
      early = put_pending-All p.id sent_probe t.probes (λ e w. ground (arith, e, w)) v.early;
    }

    sent_on :
        IsValid (if p.early_reply then accept_reply p p.reply_at sent_tracker else sent_tracker)
    sent_on =
        if-IsValid p.early_reply _ _
          (λ early. accept_reply-IsValid p p.reply_at sent_tracker (h early waits) sent_valid)
          (λ late. sent_valid)

answer-IsValid :
    (p : Probe) (now : ℕ) (t : ProbeQualityTracker) → IsValid t → IsValid (answer p now t).1
unfolding answer EarlyInTime
answer-IsValid p now t v = elim (Bool-cases (leb timeout_ms (sub32 now p.sent))) [
  | inl late ↦ ground (arith, late, v)
  | inr soon ↦
      let early_one =
        put-IsValid p.id (record p { early_reply = true; reply_at = now }) t (λ e w. ground arith)
          v in
      let replied_one =
        accept_reply-IsValid p now
          (record t { probes = put_pending p.id (record p { state = replied }) t.probes })
          (ground arith) (put-IsValid p.id (record p { state = replied }) t (λ e w. cc) v) in
      ground (arith, v, early_one, replied_one)
]

pub complete_send-IsValid :
    (id now : ℕ) (success : Bool) (t : ProbeQualityTracker)
    → IsValid t
    → IsValid (complete_send id now success t)
unfolding complete_send
complete_send-IsValid id now success t v = elim (Option-cases (find_pending id t.probes)) [
  | inl absent ↦ rw (absent, complete_send) v
  | inr (p, found) ↦
      rw (found, complete_send)
        (finish_send-IsValid p now success t (find_pending-All id t.probes p v.early found).0
          (find_pending-All id t.probes p v.early found).1 v)
]

pub reply-IsValid : (id now : ℕ) (t : ProbeQualityTracker) → IsValid t → IsValid (reply id now t).1
unfolding reply
reply-IsValid id now t v =
    let v' = expire-IsValid now t v in
    elim (Option-cases (find_pending id (expire now t).probes)) [
      | inl absent ↦ rw (absent, reply) v'
      | inr (p, found) ↦ rw (found, reply) (answer-IsValid p now (expire now t) v')
    ]
