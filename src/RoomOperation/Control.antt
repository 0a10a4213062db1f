-- ===== src/RoomOperation/Control.antt =====
-- RoomTaskControl of common/room_operation.h: cancellation and deadline of a worker.
use vlan_connect.Prelude.{
  leb, ◌==◌, if◌then◌else◌, ℕ, ◌+◌, ◌-◌, ◌≤◌, min, ◌≡◌, ◌↔◌, Bool, true, not, ◌&&◌, arith,
}

pub record RoomTaskControl : Type 0 where
  pub cancel_requested : Bool
  pub deadline_ms : ℕ
  pub operation_id : ℕ
  pub connection_generation : ℕ

unfoldable pub control_expired : ℕ → RoomTaskControl → Bool
control_expired now c = not (c.deadline_ms == 0) && leb c.deadline_ms now

unfoldable pub allowed : ℕ → RoomTaskControl → Bool
allowed now c = not c.cancel_requested && not (control_expired now c)

unfoldable pub remaining_ms : ℕ → ℕ → RoomTaskControl → ℕ
remaining_ms now cap c =
    if c.cancel_requested
    then 0
    else if c.deadline_ms == 0
    then cap
    else if leb c.deadline_ms now
    then 0
    else min cap (c.deadline_ms - now)

-- At one time a worker has time left exactly when it is allowed to go on, never more than it asked
-- for, and waiting as long as it is told does not pass the deadline.
pub remaining_ms_lem :
    (now cap : ℕ) (c : RoomTaskControl)
    → 1 ≤ cap
    → ((1 ≤ remaining_ms now cap c) ↔ (allowed now c ≡ true))
      × (remaining_ms now cap c ≤ cap)
      × (allowed now c ≡ true → 1 ≤ c.deadline_ms → now + remaining_ms now cap c ≤ c.deadline_ms)
unfolding remaining_ms allowed control_expired
remaining_ms_lem now cap c h = ground arith
