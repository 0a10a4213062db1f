-- ===== src/RoomOperation/Deadlines.antt =====
-- Every way through the phases: which follow on each other, and within which time.
use vlan_connect.Prelude.{All, ℕ, ◌+◌, ◌^◌, ◌≤◌, ◌<◌, ◌≡◌, refl, ◌⊎◌, true, List, [], ◌∷◌, arith}
use vlan_connect.RoomOperation.{
  RoomOperationPhase, waiting_server, preparing_adapter, waiting_readiness, phase_number,
  RoomOperationTracker, new_tracker, expired, begin, begin_preparation, begin_readiness,
  mark_in_room, begin_cancel, begin_cleanup, finish_cleanup,
}

-- The calls that change the tracker, with the times they are made at.
pub data Call : Type 0 where
  call_begin : ℕ → ℕ → Call
  call_preparation call_readiness call_in_room call_cancel call_cleanup : ℕ → Call
  call_finish : Call

abbrev pub apply : Call → RoomOperationTracker → RoomOperationTracker
apply (call_begin now g) t = (begin now g t).1
apply (call_preparation now) t = (begin_preparation now t).1
apply (call_readiness now) t = (begin_readiness now t).1
apply (call_in_room now) t = (mark_in_room now t).1
apply (call_cancel now) t = (begin_cancel now t).1
apply (call_cleanup now) t = begin_cleanup now t
apply call_finish t = finish_cleanup t

abbrev pub apply_all : List Call → RoomOperationTracker → RoomOperationTracker
apply_all [] t = t
apply_all (c ∷ cs) t = apply_all cs (apply c t)

-- A clock that does not wrap around while the operation runs.
abbrev pub InRange : Call → Type 0
InRange (call_begin now g) = now + 45000 < 2 ^ 64
InRange (call_preparation now) = now + 45000 < 2 ^ 64
InRange (call_readiness now) = now + 45000 < 2 ^ 64
InRange _ = Unit

-- What each phase says of the deadline that is set.
abbrev pub InPhase : RoomOperationPhase → RoomOperationTracker → Type 0
InPhase waiting_server t = (t.deadline ≡ t.started + 15000) × (t.total_deadline ≡ t.started + 45000)
InPhase preparing_adapter t =
    (1 ≤ t.deadline)
    × (t.deadline ≡ t.local_deadline)
    × (t.deadline ≤ t.total_deadline)
    × (t.total_deadline ≡ t.started + 45000)
InPhase waiting_readiness t =
    (1 ≤ t.deadline)
    × (t.deadline ≤ t.local_deadline)
    × (t.local_deadline ≤ t.total_deadline)
    × (t.total_deadline ≡ t.started + 45000)
InPhase _ t = t.deadline ≡ 0

pub IsValid : RoomOperationTracker → Type 0
IsValid t = InPhase t.phase t

apply-IsValid : (c : Call) (t : RoomOperationTracker) → InRange c → IsValid t → IsValid (apply c t)
unfolding IsValid begin begin_preparation begin_readiness mark_in_room begin_cancel begin_cleanup
    finish_cleanup expired
apply-IsValid (call_begin now g) t r v = ground arith
apply-IsValid (call_preparation now) t r v = ground arith
apply-IsValid (call_readiness now) t r v = ground arith
apply-IsValid (call_in_room now) t r v = ground arith
apply-IsValid (call_cancel now) t r v = ground arith
apply-IsValid (call_cleanup now) t r v = ground arith
apply-IsValid call_finish t r v = refl

apply_all-IsValid :
    (cs : List Call) (t : RoomOperationTracker)
    → All InRange cs
    → IsValid t
    → IsValid (apply_all cs t)
apply_all-IsValid [] t r v = v
apply_all-IsValid (c ∷ cs) t r v = apply_all-IsValid cs (apply c t) r.1 (apply-IsValid c t r.0 v)

-- Whatever calls are made, while the clock does not wrap around: the room is entered only out of
-- the two phases of preparation and within 45 seconds of the start, and an attempt that has not
-- been entered, cancelled or cleaned up by then has expired.
pub entered_in_time :
    (cs : List Call) (now : ℕ)
    → All InRange cs
    → let t = apply_all cs new_tracker in
      ((mark_in_room now t).0 ≡ true
        → ((t.phase ≡ preparing_adapter) ⊎ (t.phase ≡ waiting_readiness))
          × (now < t.started + 45000))
      × (t.started + 45000 ≤ now
          → 1 ≤ phase_number t.phase
          → phase_number t.phase ≤ 3
          → expired now t ≡ true)
unfolding IsValid new_tracker mark_in_room expired
entered_in_time cs now r =
    let v = apply_all-IsValid cs new_tracker r refl in
    ((λ h. ground (arith, v)), (λ late low high. ground (arith, v)))
