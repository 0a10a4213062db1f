-- ===== src/Room/Invariant.antt =====
-- What holds of a room after every operation.
pub mod Lists
use vlan_connect.Prelude.{
  leb, Bool-cases, Option-cases, length, All, length-append, All-append, ℕ, ◌≤◌, ◌<◌, ◌≡◌, refl,
  sym, ap, ◌∙◌, subst, ◌≢◌, ◌⊎◌, inl, inr, true, Option, none, some, List, [], ◌∷◌, ◌++◌, arith,
}
use vlan_connect.Protocol.Constants.{max_players}
use vlan_connect.Room.Addresses.{allocate_virtual_ip_lem}
use vlan_connect.Room.Leases.{
  RoomLease, Room, allocate_virtual_ip, is_full, find_lease, is_some, has_lease, with_host,
  ensure_host, new_lease, add_lease,
}
use mathlib.Core.Option
use vlan_connect.Room.Invariant.Lists.{
  DistinctPeers, DistinctIps, InSubnet, HostIn, DistinctPeers-snoc, DistinctIps-snoc,
  next_host-HostIn,
}

-- Members and addresses are distinct, the addresses are host addresses of the subnet, the room is
-- not overfull, and the host is a member.
pub record IsValid (r : Room) : Type 0 where
  pub peers : DistinctPeers r.leases
  pub ips : DistinctIps r.leases
  pub subnet : All InSubnet r.leases
  pub capacity : length r.leases ≤ r.max_players
  pub limit : r.max_players ≤ max_players
  pub host : HostIn r.host_peer_id r.leases

with_host_lem :
    (ls : List RoomLease) (r : Room)
    → r.leases ≡ ls
    → HostIn (with_host ls r).host_peer_id ls
      × ((with_host ls r).leases ≡ r.leases)
      × ((with_host ls r).max_players ≡ r.max_players)
      × ((with_host ls r).id ≡ r.id)
unfolding with_host
with_host_lem [] r e = (tt, refl, refl, refl)
with_host_lem (l ∷ ls) r e = elim (Bool-cases (is_some (find_lease r.host_peer_id r.leases))) [
  | inl member ↦
      rw member
        (subst (λ k. is_some (find_lease r.host_peer_id k) ≡ true) e member, refl, refl, refl)
  | inr gone ↦ rw gone (next_host-HostIn l ls, refl, refl, refl)
]

-- `ensureHost` writes the host alone, and makes it a member.
pub ensure_host_lem :
    (r : Room)
    → HostIn (ensure_host r).host_peer_id r.leases
      × ((ensure_host r).leases ≡ r.leases)
      × ((ensure_host r).max_players ≡ r.max_players)
      × ((ensure_host r).id ≡ r.id)
unfolding ensure_host
ensure_host_lem r = with_host_lem r.leases r refl

-- The lists of a valid room, before its host is chosen.
pub record IsValidButHost (r : Room) : Type 0 where
  pub peers : DistinctPeers r.leases
  pub ips : DistinctIps r.leases
  pub subnet : All InSubnet r.leases
  pub capacity : length r.leases ≤ r.max_players
  pub limit : r.max_players ≤ max_players

pub ensure_host-IsValid : (r : Room) → IsValidButHost r → IsValid (ensure_host r)
ensure_host-IsValid r v =
    let (host, same, players, _) = ensure_host_lem r in
    record {
      peers = subst DistinctPeers (sym same) v.peers;
      ips = subst DistinctIps (sym same) v.ips;
      subnet = subst (All InSubnet) (sym same) v.subnet;
      capacity = omega (arith, ap length same, v.capacity, players);
      limit = omega (arith, players, v.limit);
      host = subst (HostIn (ensure_host r).host_peer_id) (sym same) host;
    }

module _ (peer : ℕ) (name token : List ℕ) (r : Room) where
  abbrev pub fresh_lease : RoomLease
  fresh_lease = new_lease peer (allocate_virtual_ip r) name token

  abbrev grown : Room
  grown = record r { leases = r.leases ++ fresh_lease ∷ []; empty_timestamp = 0 }

  add_lease_done :
      length r.leases < r.max_players
      → find_lease peer r.leases ≡ none
      → allocate_virtual_ip r ≢ 0
      → add_lease peer name token r ≡ (some fresh_lease, ensure_host grown)
  unfolding add_lease is_full has_lease
  add_lease_done free new ip = ground arith

  grown-IsValidButHost :
      IsValid r
      → length r.leases < r.max_players
      → find_lease peer r.leases ≡ none
      → IsValidButHost grown
  grown-IsValidButHost v free new =
      let (lo, hi, unused) = allocate_virtual_ip_lem r (omega (arith, v.limit)) in
      record {
        peers = DistinctPeers-snoc r.leases fresh_lease v.peers new;
        ips = DistinctIps-snoc r.leases fresh_lease v.ips unused;
        subnet = All-append InSubnet r.leases (fresh_lease ∷ []) v.subnet ((lo, hi), tt);
        capacity = omega (arith, length-append {0} r.leases (fresh_lease ∷ []));
        limit = v.limit;
      }

-- In a valid room, `addLease` adds a member exactly when there is room and the peer is new: the lease has a free
-- address of the subnet and goes to the end. Otherwise it reports failure and changes nothing.
-- Either way the room stays valid.
pub add_lease_lem :
    (peer : ℕ) (name token : List ℕ) (r : Room)
    → IsValid r
    → IsValid (add_lease peer name token r).1
      × (((length r.leases < r.max_players)
            × (find_lease peer r.leases ≡ none)
            × ((add_lease peer name token r).0 ≡ some (fresh_lease peer name token r))
            × ((add_lease peer name token r).1.leases
                ≡ r.leases ++ fresh_lease peer name token r ∷ []))
          ⊎ (((r.max_players ≤ length r.leases) ⊎ (has_lease peer r ≡ true))
              × (add_lease peer name token r ≡ (none, r))))
unfolding add_lease is_full has_lease
add_lease_lem peer name token r v = elim (Bool-cases (leb r.max_players (length r.leases))) [
  | inl full ↦ (rw full v, inr (inl (ground arith), rw full))
  | inr free ↦ elim (Option-cases (find_lease peer r.leases)) [
    | inr (l, found) ↦ (rw (free, found) v, inr (inr (rw found), rw (free, found)))
    | inl new ↦ done (ground arith) new
  ]
]
  where
    done :
        length r.leases < r.max_players
        → find_lease peer r.leases ≡ none
        → IsValid (add_lease peer name token r).1
          × (((length r.leases < r.max_players)
                × (find_lease peer r.leases ≡ none)
                × ((add_lease peer name token r).0 ≡ some (fresh_lease peer name token r))
                × ((add_lease peer name token r).1.leases
                    ≡ r.leases ++ fresh_lease peer name token r ∷ []))
              ⊎ (((r.max_players ≤ length r.leases) ⊎ (has_lease peer r ≡ true))
                  × (add_lease peer name token r ≡ (none, r))))
    done free new =
        let ip = allocate_virtual_ip_lem r (omega (arith, v.limit)) in
        let e =
          add_lease_done peer name token r free new (λ zero_ip. absurd (omega (arith, ip.0))) in
        (
          subst (λ q. IsValid q) (sym (ap (λ p. p.1) e))
              (ensure_host-IsValid _ (grown-IsValidButHost peer name token r v free new)),
          inl (
            free,
            new,
            ap (λ p. p.0) e,
            ap (λ p. p.1.leases) e ∙ (ensure_host_lem (grown peer name token r)).1,
          ),
        )
