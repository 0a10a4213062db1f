-- ===== src/Room/Invariant/Lists.antt =====
-- Lemmas on the lists of leases.
use vlan_connect.Prelude.{
  ◌==◌, if◌then◌else◌, Bool-cases, length, All, ℕ, ◌+◌, ◌≤◌, ◌≡◌, refl, ◌≢◌, inl, inr, true, false,
  ◌||◌, none, some, List, [], ◌∷◌, ◌++◌, arith,
}
use vlan_connect.Protocol.Constants.{vnet_subnet}
use mathlib.Core.Option
use vlan_connect.Room.Leases.{
  RoomLease, has_virtual_ip, find_lease, is_some, next_host, erase_lease, update_lease,
}

abbrev pub DistinctPeers : List RoomLease → Type 0
DistinctPeers [] = Unit
DistinctPeers (l ∷ ls) = (find_lease l.peer_id ls ≡ none) × DistinctPeers ls

abbrev pub DistinctIps : List RoomLease → Type 0
DistinctIps [] = Unit
DistinctIps (l ∷ ls) = (has_virtual_ip l.virtual_ip ls ≡ false) × DistinctIps ls

abbrev pub InSubnet : RoomLease → Type 0
InSubnet l = (vnet_subnet + 2 ≤ l.virtual_ip) × (l.virtual_ip ≤ vnet_subnet + 254)

abbrev pub HostIn : ℕ → List RoomLease → Type 0
HostIn host [] = Unit
HostIn host (l ∷ ls) = is_some (find_lease host (l ∷ ls)) ≡ true

-- A write that leaves the member and its address as they are.
abbrev pub KeepsIdentity : (RoomLease → RoomLease) → Type 0
KeepsIdentity f = (l : RoomLease) → ((f l).peer_id ≡ l.peer_id) × ((f l).virtual_ip ≡ l.virtual_ip)

pub find_lease-snoc :
    (peer : ℕ) (ls : List RoomLease) (l : RoomLease)
    → find_lease peer ls ≡ none
    → find_lease peer (ls ++ l ∷ []) ≡ (if l.peer_id == peer then some l else none)
unfolding find_lease
find_lease-snoc peer [] l e = refl
find_lease-snoc peer (x ∷ ls) l e = ground (arith, find_lease-snoc peer ls l)

has_virtual_ip-snoc :
    (ip : ℕ) (ls : List RoomLease) (l : RoomLease)
    → has_virtual_ip ip (ls ++ l ∷ []) ≡ (has_virtual_ip ip ls || l.virtual_ip == ip)
unfolding has_virtual_ip
has_virtual_ip-snoc ip [] l = ground arith
has_virtual_ip-snoc ip (x ∷ ls) l = ground (arith, has_virtual_ip-snoc ip ls l)

pub DistinctPeers-snoc :
    (ls : List RoomLease) (l : RoomLease)
    → DistinctPeers ls
    → find_lease l.peer_id ls ≡ none
    → DistinctPeers (ls ++ l ∷ [])
unfolding find_lease
DistinctPeers-snoc [] l d e = (refl, tt)
DistinctPeers-snoc (x ∷ ls) l d e =
    (ground (arith, find_lease-snoc x.peer_id ls l d.0), DistinctPeers-snoc ls l d.1 (ground arith))

pub DistinctIps-snoc :
    (ls : List RoomLease) (l : RoomLease)
    → DistinctIps ls
    → has_virtual_ip l.virtual_ip ls ≡ false
    → DistinctIps (ls ++ l ∷ [])
unfolding has_virtual_ip
DistinctIps-snoc [] l d e = (refl, tt)
DistinctIps-snoc (x ∷ ls) l d e = (
  ground (arith, has_virtual_ip-snoc x.virtual_ip ls l),
  DistinctIps-snoc ls l d.1 (ground arith),
)

find_lease-erase_lease_ne :
    (peer q : ℕ) (ls : List RoomLease)
    → peer ≢ q
    → find_lease q (erase_lease peer ls) ≡ find_lease q ls
unfolding find_lease erase_lease
find_lease-erase_lease_ne peer q [] ne = refl
find_lease-erase_lease_ne peer q (x ∷ ls) ne =
    ground (arith, find_lease-erase_lease_ne peer q ls ne)

pub find_lease-erase_lease :
    (peer q : ℕ) (ls : List RoomLease)
    → DistinctPeers ls
    → find_lease q (erase_lease peer ls) ≡ (if peer == q then none else find_lease q ls)
unfolding find_lease erase_lease
find_lease-erase_lease peer q [] d = ground arith
find_lease-erase_lease peer q (x ∷ ls) d = ground (arith, find_lease-erase_lease peer q ls d.1)

has_virtual_ip-erase_lease :
    (peer ip : ℕ) (ls : List RoomLease)
    → has_virtual_ip ip ls ≡ false
    → has_virtual_ip ip (erase_lease peer ls) ≡ false
unfolding has_virtual_ip erase_lease
has_virtual_ip-erase_lease peer ip [] e = refl
has_virtual_ip-erase_lease peer ip (x ∷ ls) e =
    ground (arith, has_virtual_ip-erase_lease peer ip ls)

pub DistinctPeers-erase_lease :
    (peer : ℕ) (ls : List RoomLease) → DistinctPeers ls → DistinctPeers (erase_lease peer ls)
unfolding erase_lease
DistinctPeers-erase_lease peer [] d = tt
DistinctPeers-erase_lease peer (x ∷ ls) d =
    ground
      (arith, find_lease-erase_lease_ne peer x.peer_id ls, DistinctPeers-erase_lease peer ls d.1)

pub DistinctIps-erase_lease :
    (peer : ℕ) (ls : List RoomLease) → DistinctIps ls → DistinctIps (erase_lease peer ls)
unfolding erase_lease
DistinctIps-erase_lease peer [] d = tt
DistinctIps-erase_lease peer (x ∷ ls) d = ground (
  arith,
  has_virtual_ip-erase_lease peer x.virtual_ip ls d.0,
  DistinctIps-erase_lease peer ls d.1,
)

pub All-erase_lease :
    (peer : ℕ) (ls : List RoomLease) → All InSubnet ls → All InSubnet (erase_lease peer ls)
unfolding erase_lease
All-erase_lease peer [] d = tt
All-erase_lease peer (x ∷ ls) d = ground (arith, All-erase_lease peer ls d.1)

pub length-erase_lease : (peer : ℕ) (ls : List RoomLease) → length (erase_lease peer ls) ≤ length ls
unfolding erase_lease
length-erase_lease peer [] = omega arith
length-erase_lease peer (x ∷ ls) = ground (arith, length-erase_lease peer ls)

module _ (peer : ℕ) (f : RoomLease → RoomLease) (keeps : KeepsIdentity f) where
  pub find_lease-update_lease :
      (q : ℕ) (ls : List RoomLease)
      → find_lease q (update_lease peer f ls)
        ≡ (if peer == q then Option.map f (find_lease q ls) else find_lease q ls)
  unfolding find_lease update_lease
  find_lease-update_lease q [] = ground arith
  find_lease-update_lease q (x ∷ ls) = ground (arith, keeps x, find_lease-update_lease q ls)

  has_virtual_ip-update_lease :
      (ip : ℕ) (ls : List RoomLease)
      → has_virtual_ip ip (update_lease peer f ls) ≡ has_virtual_ip ip ls
  unfolding has_virtual_ip update_lease
  has_virtual_ip-update_lease ip [] = refl
  has_virtual_ip-update_lease ip (x ∷ ls) =
      ground (arith, keeps x, has_virtual_ip-update_lease ip ls)

  pub DistinctPeers-update_lease :
      (ls : List RoomLease) → DistinctPeers ls → DistinctPeers (update_lease peer f ls)
  unfolding update_lease
  DistinctPeers-update_lease [] d = tt
  DistinctPeers-update_lease (x ∷ ls) d =
      ground
        (arith, keeps x, find_lease-update_lease x.peer_id ls, DistinctPeers-update_lease ls d.1)

  pub DistinctIps-update_lease :
      (ls : List RoomLease) → DistinctIps ls → DistinctIps (update_lease peer f ls)
  unfolding update_lease
  DistinctIps-update_lease [] d = tt
  DistinctIps-update_lease (x ∷ ls) d =
      ground (
        arith,
        keeps x,
        has_virtual_ip-update_lease x.virtual_ip ls,
        DistinctIps-update_lease ls d.1,
      )

  pub All-update_lease :
      (ls : List RoomLease) → All InSubnet ls → All InSubnet (update_lease peer f ls)
  unfolding update_lease
  All-update_lease [] d = tt
  All-update_lease (x ∷ ls) d = ground (arith, keeps x, All-update_lease ls d.1)

  pub length-update_lease : (ls : List RoomLease) → length (update_lease peer f ls) ≡ length ls
  unfolding update_lease
  length-update_lease [] = refl
  length-update_lease (x ∷ ls) = ground (arith, length-update_lease ls)

pub HostIn-update_lease :
    (peer host : ℕ) (f : RoomLease → RoomLease) (ls : List RoomLease)
    → KeepsIdentity f
    → HostIn host ls
    → HostIn host (update_lease peer f ls)
unfolding update_lease find_lease
HostIn-update_lease peer host f [] keeps h = tt
HostIn-update_lease peer host f (l ∷ ls) keeps h = elim (Bool-cases (l.peer_id == peer)) [
  | inl hit ↦ rw hit (ground (arith, keeps l))
  | inr miss ↦ rw miss (ground (arith, find_lease-update_lease peer f keeps host ls))
]

-- The next host is a member.
next_host_found :
    (ls all : List RoomLease) (front : ℕ)
    → is_some (find_lease front all) ≡ true
    → ((q : ℕ) → is_some (find_lease q ls) ≡ true → is_some (find_lease q all) ≡ true)
    → is_some (find_lease (next_host ls front) all) ≡ true
unfolding next_host find_lease
next_host_found [] all front here sub = here
next_host_found (x ∷ ls) all front here sub = ground (
  arith,
  sub x.peer_id (ground arith),
  next_host_found ls all front here (λ q e. sub q (ground arith)),
)

pub next_host-HostIn :
    (l : RoomLease) (ls : List RoomLease) → HostIn (next_host (l ∷ ls) l.peer_id) (l ∷ ls)
unfolding find_lease
next_host-HostIn l ls = next_host_found (l ∷ ls) (l ∷ ls) l.peer_id (ground arith) (λ q e. e)
