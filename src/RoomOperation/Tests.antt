-- ===== src/RoomOperation/Tests.antt =====
-- An attempt that enters the room, and a worker with a deadline.
use vlan_connect.Prelude.{◌+◌, ◌≤◌, ◌<◌, ◌≡◌, ◌⊎◌, true, false, List, [], ◌∷◌, arith}
use vlan_connect.RoomOperation.{
  preparing_adapter, waiting_readiness, phase_number, RoomOperationTracker, new_tracker, expired,
  mark_in_room,
}
use vlan_connect.RoomOperation.Deadlines.{
  Call, call_begin, call_preparation, call_readiness, apply_all, entered_in_time,
}
use vlan_connect.RoomOperation.Control.{RoomTaskControl}

abbrev calls : List Call
calls = call_begin 1000 1 ∷ call_preparation 2000 ∷ call_readiness 3000 ∷ []

abbrev prepared : RoomOperationTracker
prepared = apply_all calls new_tracker

entered_in_time_example :
    ((mark_in_room 4000 prepared).0 ≡ true
      → ((prepared.phase ≡ preparing_adapter) ⊎ (prepared.phase ≡ waiting_readiness))
        × (4000 < prepared.started + 45000))
    × (prepared.started + 45000 ≤ 4000
        → 1 ≤ phase_number prepared.phase
        → phase_number prepared.phase ≤ 3
        → expired 4000 prepared ≡ true)
entered_in_time_example = entered_in_time calls 4000 (omega arith, (omega arith, (omega arith, tt)))

abbrev control : RoomTaskControl
control = record {
  cancel_requested = false;
  deadline_ms = 5000;
  operation_id = 1;
  connection_generation = 1;
}
