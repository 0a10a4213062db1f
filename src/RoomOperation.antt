-- ===== src/RoomOperation.antt =====
-- common/room_operation.h: the phases of one attempt to enter a room, with their deadlines.
-- Times are unsigned 64-bit milliseconds; the atomics of RoomTaskControl are plain fields, and the
-- monotonic clock is an argument.
pub mod Deadlines
pub mod Control
mod Tests
use vlan_connect.Prelude.{
  leb, ◌==◌, if◌then◌else◌, ℕ, ◌+◌, ◌-◌, ◌%◌, ◌^◌, min, Bool, true, false, not, ◌&&◌, ◌||◌,
}

pub data RoomOperationPhase : Type 0 where
  idle waiting_server preparing_adapter waiting_readiness in_room cancelling cleaning_up :
      RoomOperationPhase

abbrev pub phase_number : RoomOperationPhase → ℕ
phase_number idle = 0
phase_number waiting_server = 1
phase_number preparing_adapter = 2
phase_number waiting_readiness = 3
phase_number in_room = 4
phase_number cancelling = 5
phase_number cleaning_up = 6

abbrev pub is_phase : RoomOperationPhase → RoomOperationPhase → Bool
is_phase p q = phase_number p == phase_number q

-- Addition and subtraction of `uint64_t`.
abbrev pub add64 : ℕ → ℕ → ℕ
add64 a b = (a + b) % 2 ^ 64

abbrev pub sub64 : ℕ → ℕ → ℕ
sub64 a b = (a + 2 ^ 64 - b) % 2 ^ 64

pub record RoomOperationTracker : Type 0 where
  pub phase : RoomOperationPhase
  pub id : ℕ
  pub connection : ℕ
  pub started : ℕ
  pub phase_started : ℕ
  pub deadline : ℕ
  pub total_deadline : ℕ
  pub local_deadline : ℕ

unfoldable pub new_tracker : RoomOperationTracker
new_tracker = record {
  phase = idle;
  id = 0;
  connection = 0;
  started = 0;
  phase_started = 0;
  deadline = 0;
  total_deadline = 0;
  local_deadline = 0;
}

unfoldable pub expired : ℕ → RoomOperationTracker → Bool
expired now t = not (t.deadline == 0) && leb t.deadline now

unfoldable pub begin : ℕ → ℕ → RoomOperationTracker → Bool × RoomOperationTracker
begin now generation t = if not (is_phase t.phase idle) then (false, t) else (
  true,
  record {
    phase = waiting_server;
    id = add64 t.id 1;
    connection = generation;
    started = now;
    phase_started = now;
    deadline = add64 now 15000;
    total_deadline = add64 now 45000;
    local_deadline = 0;
  },
)

unfoldable pub begin_preparation : ℕ → RoomOperationTracker → Bool × RoomOperationTracker
begin_preparation now t =
    if not (is_phase t.phase waiting_server) || expired now t then (false, t) else (
      true,
      record t {
        local_deadline = min (add64 now 30000) t.total_deadline;
        deadline = min (add64 now 30000) t.total_deadline;
        phase_started = now;
        phase = preparing_adapter;
      },
    )

unfoldable pub begin_readiness : ℕ → RoomOperationTracker → Bool × RoomOperationTracker
begin_readiness now t =
    if not (is_phase t.phase preparing_adapter) || expired now t then (false, t) else (
      true,
      record t {
        deadline = min (add64 now 10000) t.local_deadline;
        phase_started = now;
        phase = waiting_readiness;
      },
    )

unfoldable pub mark_in_room : ℕ → RoomOperationTracker → Bool × RoomOperationTracker
mark_in_room now t =
    if (not (is_phase t.phase preparing_adapter) && not (is_phase t.phase waiting_readiness))
      || expired now t
    then (false, t)
    else (true, record t { phase = in_room; phase_started = now; deadline = 0 })

unfoldable pub begin_cancel : ℕ → RoomOperationTracker → Bool × RoomOperationTracker
begin_cancel now t =
    if is_phase t.phase idle || is_phase t.phase cancelling || is_phase t.phase cleaning_up
    then (false, t)
    else (true, record t { phase = cancelling; phase_started = now; deadline = 0 })

unfoldable pub begin_cleanup : ℕ → RoomOperationTracker → RoomOperationTracker
begin_cleanup now t =
    if is_phase t.phase cleaning_up
    then t
    else record t { phase = cleaning_up; phase_started = now; deadline = 0 }

unfoldable pub finish_cleanup : RoomOperationTracker → RoomOperationTracker
finish_cleanup t = record t { phase = idle; deadline = 0 }

unfoldable pub cleanup_slow : ℕ → RoomOperationTracker → Bool
cleanup_slow now t = is_phase t.phase cleaning_up && leb 10000 (sub64 now t.phase_started)

unfoldable pub pending : RoomOperationTracker → Bool
pending t = not (is_phase t.phase idle) && not (is_phase t.phase in_room)

unfoldable pub can_start : RoomOperationTracker → Bool
can_start t = is_phase t.phase idle

unfoldable pub elapsed_ms : ℕ → RoomOperationTracker → ℕ
elapsed_ms now t = sub64 now t.started

unfoldable pub matches : ℕ → ℕ → RoomOperationTracker → Bool
matches id connection t = t.id == id && t.connection == connection
