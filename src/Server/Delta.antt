-- ===== src/Server/Delta.antt =====
-- The changes of the room list (server/src/signal_server.cpp): what a client that applies them gets.
use vlan_connect.Prelude.{
  ◌==◌, if◌then◌else◌, Bool-cases, ℕ, suc, ◌≤◌, ◌<◌, ◌≡◌, refl, ap, ◌∙◌, subst, inl, inr, Bool,
  true, false, not, ◌&&◌, Option, none, some, List, [], ◌∷◌, ◌++◌, arith,
}
use vlan_connect.Prelude.Map.{
  find, insert, erase, Rising, find_below, find-insert, find-erase, insert-Rising, erase-Rising,
}
use vlan_connect.Protocol.Policy.{
  TransportMode, FecMode, KcpProfile, transport_value, fec_value, profile_value, RoomTrafficPolicy,
}
use vlan_connect.Server.State.{RoomListState}
use vlan_connect.Server.RoomList.{
  same_name, same_policy, same_state, Operation, upsert, remove, is_current, upserts, removals,
  room_list_delta,
}
use vlan_connect.Room.Leases.{is_some}

-- A client's copy of the list after a change, as MSG_ROOM_LIST_PUSH asks for it.
pub apply : List Operation → List (ℕ × RoomListState) → List (ℕ × RoomListState)
apply [] m = m
apply (upsert room ∷ ops) m = apply ops (insert room.room_id room m)
apply (remove room ∷ ops) m = apply ops (erase room.room_id m)

-- A list of rooms in the order of their numbers, each under its own.
abbrev pub Keyed : ℕ → List (ℕ × RoomListState) → Type 0
Keyed lo [] = Unit
Keyed lo ((id, room) ∷ rooms) = (lo ≤ id) × (room.room_id ≡ id) × Keyed (suc id) rooms

Keyed-Rising : (lo : ℕ) (rooms : List (ℕ × RoomListState)) → Keyed lo rooms → Rising lo rooms
Keyed-Rising lo [] h = tt
Keyed-Rising lo ((id, room) ∷ rooms) (low, own, h) = (low, Keyed-Rising (suc id) rooms h)

same_name-eq : (xs ys : List ℕ) → same_name xs ys ≡ true → xs ≡ ys
same_name-eq [] [] h = refl
same_name-eq [] (y ∷ ys) h = cc
same_name-eq (x ∷ xs) [] h = cc
same_name-eq (x ∷ xs) (y ∷ ys) h = ground (arith, same_name-eq xs ys)

transport_value-eq : (a b : TransportMode) → transport_value a ≡ transport_value b → a ≡ b
transport_value-eq a b h = ground arith

fec_value-eq : (a b : FecMode) → fec_value a ≡ fec_value b → a ≡ b
fec_value-eq a b h = ground arith

profile_value-eq : (a b : KcpProfile) → profile_value a ≡ profile_value b → a ≡ b
profile_value-eq a b h = ground arith

same_policy-eq : (p q : RoomTrafficPolicy) → same_policy p q ≡ true → p ≡ q
same_policy-eq p q h = ground (
  arith,
  transport_value-eq p.transport_mode q.transport_mode,
  fec_value-eq p.fec_mode q.fec_mode,
  profile_value-eq p.kcp_profile q.kcp_profile,
)

and_true : (a b : Bool) → (a && b) ≡ true → (a ≡ true) × (b ≡ true)
and_true a b h = ground arith

==-eq : (a b : ℕ) → (a == b) ≡ true → a ≡ b
==-eq a b h = ground arith

-- RoomListState::operator== holds of equal states only.
pub same_state-eq : (a b : RoomListState) → same_state a b ≡ true → a ≡ b
unfolding same_state
same_state-eq a b h =
    let (h7, mtu) = and_true _ _ h in
    let (h6, protected) = and_true _ _ h7 in
    let (h5, udp) = and_true _ _ h6 in
    let (h4, tcp) = and_true _ _ h5 in
    let (h3, most) = and_true _ _ h4 in
    let (h2, count) = and_true _ _ h3 in
    let (id, name) = and_true _ _ h2 in
    let e1 = ==-eq a.room_id b.room_id id in
    let e2 = same_name-eq a.room_name b.room_name name in
    let e3 = ==-eq a.player_count b.player_count count in
    let e4 = ==-eq a.max_players b.max_players most in
    let e5 = same_policy-eq a.tcp_policy b.tcp_policy tcp in
    let e6 = same_policy-eq a.udp_policy b.udp_policy udp in
    let e7 = ==-eq a.password_protected b.password_protected protected in
    let e8 = ==-eq a.mtu b.mtu mtu in cc

-- What a room's number leads to after the upserts, by what it leads to in the published list, the
-- current one and the copy.
abbrev merged :
    Option RoomListState → Option RoomListState → Option RoomListState → Option RoomListState
merged published none copy = copy
merged published (some room) copy = if is_current room published then copy else some room

find-upserts :
    (k lo : ℕ) (published current m : List (ℕ × RoomListState))
    → Keyed lo current
    → find k (apply (upserts published current) m)
      ≡ merged (find k published) (find k current) (find k m)
unfolding upserts apply find
find-upserts k lo published [] m keyed = refl
find-upserts k lo published ((id, room) ∷ current) m (low, own, keyed) =
    let below = find_below k (suc id) current (Keyed-Rising (suc id) current keyed) in
    elim (Bool-cases (is_current room (find id published))) [
      | inl same ↦ rw same (step (find-upserts k (suc id) published current m keyed) below same)
      | inr changed ↦ rw changed (
          step' (find-upserts k (suc id) published current (insert room.room_id room m) keyed) below
            changed)
    ]
  where
    step :
        find k (apply (upserts published current) m)
          ≡ merged (find k published) (find k current) (find k m)
        → (k < suc id → find k current ≡ none)
        → is_current room (find id published) ≡ true
        → find k (apply (upserts published current) m)
          ≡ merged (find k published) (if id == k then some room else find k current) (find k m)
    step ih below same = elim (Bool-cases (id == k)) [
      | inl here ↦
          let id_k : id ≡ k = ==-eq id k here in
          let gone : find k current ≡ none = below (omega arith) in
          let kept : is_current room (find k published) ≡ true =
            subst (λ j. is_current room (find j published) ≡ true) id_k same in
          rw (here, kept) (ih ∙ ap (λ o. merged (find k published) o (find k m)) gone)
      | inr there ↦ rw there ih
    ]

    step' :
        find k (apply (upserts published current) (insert room.room_id room m))
          ≡ merged (find k published) (find k current) (find k (insert room.room_id room m))
        → (k < suc id → find k current ≡ none)
        → is_current room (find id published) ≡ false
        → find k (apply (upserts published current) (insert room.room_id room m))
          ≡ merged (find k published) (if id == k then some room else find k current) (find k m)
    step' ih below changed = elim (Bool-cases (id == k)) [
      | inl here ↦
          let id_k : id ≡ k = ==-eq id k here in
          let gone : find k current ≡ none = below (omega arith) in
          let new : is_current room (find k published) ≡ false =
            subst (λ j. is_current room (find j published) ≡ false) id_k changed in
          let put : find k (insert room.room_id room m) ≡ some room =
            find-insert room.room_id k room m ∙ ground arith in
          rw (here, new)
            (ih
              ∙ ap (λ o. merged (find k published) o (find k (insert room.room_id room m))) gone
              ∙ put)
      | inr there ↦ rw there (
          ih
          ∙ ap (merged (find k published) (find k current))
              (find-insert room.room_id k room m ∙ ground arith))
    ]

find-removals :
    (k lo lo' : ℕ) (current published m : List (ℕ × RoomListState))
    → Keyed lo published
    → Rising lo' m
    → find k (apply (removals current published) m)
      ≡ (if is_some (find k published) && not (is_some (find k current)) then none else find k m)
unfolding removals apply find
find-removals k lo lo' current [] m keyed rise = refl
find-removals k lo lo' current ((id, room) ∷ published) m (low, own, keyed) rise =
    let below = find_below k (suc id) published (Keyed-Rising (suc id) published keyed) in
    elim (Bool-cases (is_some (find id current))) [
      | inl stays ↦
          rw stays
            (ground (arith, find-removals k (suc id) lo' current published m keyed rise, below))
      | inr gone ↦ rw gone (
          ground (
            arith,
            find-removals k (suc id) lo' current published (erase room.room_id m) keyed
                (erase-Rising room.room_id lo' m rise),
            find-erase room.room_id k lo' m rise,
            below,
          ))
    ]

apply-append :
    (xs ys : List Operation) (m : List (ℕ × RoomListState))
    → apply (xs ++ ys) m ≡ apply ys (apply xs m)
unfolding apply
apply-append [] ys m = refl
apply-append (upsert room ∷ xs) ys m = apply-append xs ys (insert room.room_id room m)
apply-append (remove room ∷ xs) ys m = apply-append xs ys (erase room.room_id m)

upserts-Rising :
    (published current m : List (ℕ × RoomListState))
    → Rising 0 m
    → Rising 0 (apply (upserts published current) m)
unfolding upserts apply
upserts-Rising published [] m r = r
upserts-Rising published ((id, room) ∷ current) m r =
    elim (Bool-cases (is_current room (find id published))) [
      | inl same ↦ rw same (upserts-Rising published current m r)
      | inr changed ↦ rw changed (
          upserts-Rising published current (insert room.room_id room m)
            (insert-Rising room.room_id 0 room m (omega arith) r))
    ]

-- A client that holds the published list and applies the change that is pushed to it holds the
-- current list: under every number the same room, and none where there is none. Both lists are in
-- the order of the rooms' numbers, with each room under its own.
pub apply-room_list_delta :
    (published current : List (ℕ × RoomListState))
    → Keyed 0 published
    → Keyed 0 current
    → (k : ℕ) → find k (apply (room_list_delta published current) published) ≡ find k current
unfolding room_list_delta
apply-room_list_delta published current old new k =
    let rise = Keyed-Rising 0 published old in
    let ups = find-upserts k 0 published current published new in
    let m = apply (upserts published current) published in
    let rems =
      find-removals k 0 0 current published m old
        (upserts-Rising published current published rise) in
    ap (find k) (apply-append (upserts published current) (removals current published) published)
    ∙ rems
    ∙ ap (λ o. if is_some (find k published) && not (is_some (find k current)) then none else o) ups
    ∙ settled (find k published) (find k current)
  where
    settled :
        (old_room new_room : Option RoomListState)
        → (if is_some old_room && not (is_some new_room)
            then none
            else merged old_room new_room old_room)
          ≡ new_room
    settled none none = refl
    settled none (some room) = refl
    settled (some old_room) none = refl
    settled (some old_room) (some room) = elim (Bool-cases (same_state old_room room)) [
      | inl same ↦ rw same (ap some (same_state-eq old_room room same))
      | inr differ ↦ rw differ refl
    ]
