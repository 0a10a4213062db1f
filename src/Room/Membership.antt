-- ===== src/Room/Membership.antt =====
-- Members that leave, go offline and come back (removeLease, markLeaseOffline, markLeaseOnline).
use mathlib.Core.Option
use vlan_connect.Prelude.{
  ◌==◌, if◌then◌else◌, Option-cases, ℕ, ◌≡◌, refl, ap, ◌∙◌, inl, inr, none, arith,
}
use vlan_connect.Room.Leases.{
  RoomLease, Room, find_lease, lease_by_peer_id, has_lease, erase_lease, is_empty, remove_lease,
  update_lease, offline, back_online, mark_lease_offline, mark_lease_online,
}
use vlan_connect.Room.Invariant.{IsValid, ensure_host_lem, IsValidButHost, ensure_host-IsValid}
use vlan_connect.Room.Invariant.Lists.{
  KeepsIdentity, find_lease-erase_lease, DistinctPeers-erase_lease, DistinctIps-erase_lease,
  All-erase_lease, length-erase_lease, find_lease-update_lease, DistinctPeers-update_lease,
  DistinctIps-update_lease, All-update_lease, length-update_lease, HostIn-update_lease,
}

abbrev without_member : ℕ → ℕ → Room → Room
without_member now peer r = record r {
  leases = erase_lease peer r.leases;
  empty_timestamp = if is_empty (erase_lease peer r.leases) then now else r.empty_timestamp;
}

without_member-IsValidButHost :
    (now peer : ℕ) (r : Room) → IsValid r → IsValidButHost (without_member now peer r)
without_member-IsValidButHost now peer r v = record {
  peers = DistinctPeers-erase_lease peer r.leases v.peers;
  ips = DistinctIps-erase_lease peer r.leases v.ips;
  subnet = All-erase_lease peer r.leases v.subnet;
  capacity = omega (arith, length-erase_lease peer r.leases, v.capacity);
  limit = v.limit;
}

-- `removeLease` reports whether the peer was a member, takes its lease out and leaves every other
-- lease as it was; the room stays valid, with a member for its host if any member is left.
pub remove_lease_lem :
    (now peer : ℕ) (r : Room)
    → IsValid r
    → IsValid (remove_lease now peer r).1
      × ((remove_lease now peer r).0 ≡ has_lease peer r)
      × ((q : ℕ)
          → lease_by_peer_id q (remove_lease now peer r).1
            ≡ (if peer == q then none else lease_by_peer_id q r))
unfolding remove_lease has_lease
remove_lease_lem now peer r v = elim (Option-cases (find_lease peer r.leases)) [
  | inl gone ↦ (rw gone v, rw gone, λ q. rw gone (ground (arith, gone)))
  | inr (l, found) ↦
      let same = (ensure_host_lem (without_member now peer r)).1 in
      (
        rw found (
            ensure_host-IsValid (without_member now peer r)
              (without_member-IsValidButHost now peer r v)),
        rw found,
        λ q. rw found (ap (find_lease q) same ∙ find_lease-erase_lease peer q r.leases v.peers),
      )
]

update_lease-IsValidButHost :
    (peer : ℕ) (f : RoomLease → RoomLease) (r : Room)
    → KeepsIdentity f
    → IsValid r
    → IsValidButHost (record r { leases = update_lease peer f r.leases })
update_lease-IsValidButHost peer f r keeps v = record {
  peers = DistinctPeers-update_lease peer f keeps r.leases v.peers;
  ips = DistinctIps-update_lease peer f keeps r.leases v.ips;
  subnet = All-update_lease peer f keeps r.leases v.subnet;
  capacity = omega (arith, length-update_lease peer f keeps r.leases, v.capacity);
  limit = v.limit;
}

-- `markLeaseOnline` reports whether the peer is a member, resets the lease's timers and leaves every
-- other lease as it was; the room stays valid.
pub mark_lease_online_lem :
    (peer : ℕ) (r : Room)
    → IsValid r
    → IsValid (mark_lease_online peer r).1
      × ((mark_lease_online peer r).0 ≡ has_lease peer r)
      × ((q : ℕ)
          → lease_by_peer_id q (mark_lease_online peer r).1 ≡ (
              if peer == q
              then Option.map back_online (lease_by_peer_id q r)
              else lease_by_peer_id q r))
unfolding mark_lease_online has_lease
mark_lease_online_lem peer r v = elim (Option-cases (find_lease peer r.leases)) [
  | inl gone ↦ (rw gone v, rw gone, λ q. rw gone (ground (arith, gone)))
  | inr (l, found) ↦
      let marked : Room = record r { leases = update_lease peer back_online r.leases } in
      let same = (ensure_host_lem marked).1 in
      (
        rw found (
            ensure_host-IsValid marked
              (update_lease-IsValidButHost peer back_online r (λ l. (refl, refl)) v)),
        rw found,
        λ q. rw found (
            ap (find_lease q) same
            ∙ find_lease-update_lease peer back_online (λ l. (refl, refl)) q r.leases),
      )
]

-- `markLeaseOffline` reports whether the peer is a member, sets the lease to expire 120 seconds from
-- now and leaves every other lease as it was; the room stays valid.
pub mark_lease_offline_lem :
    (peer now : ℕ) (r : Room)
    → IsValid r
    → IsValid (mark_lease_offline peer now r).1
      × ((mark_lease_offline peer now r).0 ≡ has_lease peer r)
      × ((q : ℕ)
          → lease_by_peer_id q (mark_lease_offline peer now r).1 ≡ (
              if peer == q
              then Option.map (offline now) (lease_by_peer_id q r)
              else lease_by_peer_id q r))
unfolding mark_lease_offline has_lease
mark_lease_offline_lem peer now r v = elim (Option-cases (find_lease peer r.leases)) [
  | inl gone ↦ (rw gone v, rw gone, λ q. rw gone (ground (arith, gone)))
  | inr (l, found) ↦
      let b = update_lease-IsValidButHost peer (offline now) r (λ l. (refl, refl)) v in
      (
        rw found (record {
          peers = b.peers;
          ips = b.ips;
          subnet = b.subnet;
          capacity = b.capacity;
          limit = b.limit;
          host =
              HostIn-update_lease peer r.host_peer_id (offline now) r.leases (λ l. (refl, refl))
                v.host;
        }),
        rw found,
        λ q. rw found (find_lease-update_lease peer (offline now) (λ l. (refl, refl)) q r.leases),
      )
]
