-- ===== src/Server/Resume.antt =====
-- validateResumeLease (server/src/signal_server.cpp): who may take up a lease, and for how long.
use vlan_connect.Prelude.{
  leb, ◌==◌, if◌then◌else◌, Bool-cases, Option-cases, none-some, some_inj, ℕ, ◌+◌, ◌≡◌, refl, sym,
  ap, ◌∙◌, ◌↔◌, inl, inr, true, false, Option, none, some, List, [], ◌∷◌, arith,
}
use vlan_connect.Room.Leases.{
  RoomLease, Room, find_lease, lease_by_peer_id, is_some, has_lease, offline, mark_lease_offline,
}
use vlan_connect.Room.Manager.{RoomManager, get_room, put_room}
use vlan_connect.Protocol.Constants.{reconnect_lease_timeout_sec}
use vlan_connect.Server.State.{SignalServer}
use vlan_connect.Server.Rooms.{
  token_is_zero, token_equals, is_expired, valid_lease, validate_resume_lease, put_rooms,
  offline_member,
}
use mathlib.Core.Option
use vlan_connect.Prelude.Map.{find-insert}
use vlan_connect.Room.Invariant.Lists.{find_lease-update_lease}

token_equals_iff : (a b : List ℕ) → (token_equals a b ≡ true) ↔ (a ≡ b)
unfolding token_equals
token_equals_iff [] [] = ((λ e. refl), (λ e. refl))
token_equals_iff [] (b ∷ ys) = ((λ e. cc), (λ e. cc))
token_equals_iff (a ∷ xs) [] = ((λ e. cc), (λ e. cc))
token_equals_iff (a ∷ xs) (b ∷ ys) = (
  (λ e. ground (arith, (token_equals_iff xs ys).0)),
  (λ e. ground (arith, (token_equals_iff xs ys).1)),
)

-- A lease that a request with the token takes up.
pub record Resumes (now room_id peer : ℕ) (token : List ℕ) (s : SignalServer) (room : Room)
    (lease : RoomLease) : Type 0 where
  pub nonzero : token_is_zero token ≡ false
  pub in_manager : get_room room_id s.rooms ≡ some room
  pub in_room : lease_by_peer_id peer room ≡ some lease
  pub same_token : lease.token ≡ token
  pub in_time : is_expired now lease ≡ false

valid_lease_inv :
    (now : ℕ) (token : List ℕ) (room : Room) (o : Option RoomLease) (room' : Room)
    (lease : RoomLease)
    → valid_lease now token room o ≡ some (room', lease)
    → (o ≡ some lease) × (room ≡ room') × (lease.token ≡ token) × (is_expired now lease ≡ false)
valid_lease_inv now token room none room' lease e = absurd (none-some e)
valid_lease_inv now token room (some l) room' lease e =
    elim (Bool-cases (token_equals l.token token)) [
      | inr differ ↦ absurd (none-some (rw differ at e))
      | inl same ↦ elim (Bool-cases (is_expired now l)) [
        | inl late ↦ absurd (none-some (rw (same, late) at e))
        | inr in_time ↦
            let equal : (room, l) ≡ (room', lease) = some_inj (rw (same, in_time) at e) in
            let lease_eq : l ≡ lease = ap (λ p. p.1) equal in
            (
              ap some lease_eq,
              ap (λ p. p.0) equal,
              ap (λ x. x.token) (sym lease_eq) ∙ (token_equals_iff l.token token).0 same,
              ap (is_expired now) (sym lease_eq) ∙ in_time,
            )
      ]
    ]

-- `validateResumeLease` gives a room and a lease exactly when they are the room and the lease of
-- the numbers in the request, the lease's token is the token of the request and not zero, and the
-- lease has not expired.
pub validate_resume_lease_iff :
    (now room_id peer : ℕ) (token : List ℕ) (s : SignalServer) (room : Room) (lease : RoomLease)
    → (validate_resume_lease now room_id peer token s ≡ some (room, lease))
      ↔ Resumes now room_id peer token s room lease
unfolding validate_resume_lease
validate_resume_lease_iff now room_id peer token s room lease = (to, from)
  where
    to :
        validate_resume_lease now room_id peer token s ≡ some (room, lease)
        → Resumes now room_id peer token s room lease
    to e = elim (Bool-cases (token_is_zero token)) [
      | inl zeros ↦ absurd (none-some (rw (validate_resume_lease, zeros) at e))
      | inr nonzero ↦ elim (Option-cases (get_room room_id s.rooms)) [
        | inl gone ↦ absurd (none-some (rw (validate_resume_lease, nonzero, gone) at e))
        | inr (room', found) ↦
            let (member, same_room, same, in_time) =
              valid_lease_inv now token room' (lease_by_peer_id peer room') room lease
                (rw (validate_resume_lease, nonzero, found) at e) in
            record {
              nonzero = nonzero;
              in_manager = found ∙ ap some same_room;
              in_room = ap (lease_by_peer_id peer) (sym same_room) ∙ member;
              same_token = same;
              in_time = in_time;
            }
      ]
    ]

    from :
        Resumes now room_id peer token s room lease
        → validate_resume_lease now room_id peer token s ≡ some (room, lease)
    from r =
        let same = (token_equals_iff lease.token token).1 r.same_token in
        rw (validate_resume_lease, r.nonzero, r.in_manager, r.in_room, same, r.in_time) refl

module _ (now room_id peer : ℕ) (room : Room) where
  room_offline : Room
  room_offline = (mark_lease_offline peer now room).1

  get_room-offline_member :
      (m : RoomManager)
      → get_room room_id m ≡ some room
      → get_room room_id (offline_member now room_id peer m) ≡ some room_offline
  unfolding offline_member get_room put_room room_offline
  get_room-offline_member m found =
      rw
        (
          offline_member,
          found,
          find-insert room_id room_id (mark_lease_offline peer now room).1 m.rooms,
        )
        (ground arith)

  lease_by_peer_id-mark_lease_offline :
      (lease : RoomLease)
      → lease_by_peer_id peer room ≡ some lease
      → lease_by_peer_id peer room_offline ≡ some (offline now lease)
  unfolding mark_lease_offline has_lease lease_by_peer_id room_offline
  lease_by_peer_id-mark_lease_offline lease member =
      let moved = find_lease-update_lease peer (offline now) (λ l. (refl, refl)) peer room.leases in
      rw (room_offline, mark_lease_offline, has_lease, member)
        (moved ∙ settled (find_lease peer room.leases) member)
    where
      settled :
          (o : Option RoomLease)
          → o ≡ some lease
          → (if peer == peer then Option.map (offline now) o else o) ≡ some (offline now lease)
      settled none e = absurd (none-some e)
      settled (some l) e = ground (arith, ap (offline now) (some_inj e))

-- A member of a room, with a token that is not zero, whose lease is marked offline can take it up
-- again with that token in the next 120 seconds, and in no later one.
pub resume_window :
    (now later room_id peer : ℕ) (s : SignalServer) (room : Room) (lease : RoomLease)
    → get_room room_id s.rooms ≡ some room
    → lease_by_peer_id peer room ≡ some lease
    → token_is_zero lease.token ≡ false
    → let s' = put_rooms (offline_member now room_id peer s.rooms) s in
      is_some (validate_resume_lease later room_id peer lease.token s')
      ≡ leb later (now + reconnect_lease_timeout_sec)
unfolding validate_resume_lease offline_member put_rooms
resume_window now later room_id peer s room lease found member nonzero =
    let here = get_room-offline_member now room_id peer room s.rooms found in
    let there = lease_by_peer_id-mark_lease_offline now room_id peer room lease member in
    let same = (token_equals_iff lease.token lease.token).1 refl in
    rw (validate_resume_lease, nonzero, here, there, same) (ground arith)
