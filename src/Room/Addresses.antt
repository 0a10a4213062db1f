-- ===== src/Room/Addresses.antt =====
-- allocateVirtualIP finds a free address of the subnet whenever fewer than 253 are leased.
use vlan_connect.Prelude.{
  ◌==◌, if◌then◌else◌, length, ℕ, zero, suc, ◌+◌, ◌≤◌, ◌<◌, ◌≡◌, refl, ◌∙◌, subst, ◌≢◌, true, false,
  List, [], ◌∷◌, arith,
}
use vlan_connect.Protocol.Constants.{vnet_subnet}
use vlan_connect.Room.Leases.{RoomLease, Room, has_virtual_ip, first_free_ip, allocate_virtual_ip}

-- Erases the first lease of an address.
drop_ip : ℕ → List RoomLease → List RoomLease
drop_ip ip [] = []
drop_ip ip (l ∷ ls) = let later = drop_ip ip ls in if l.virtual_ip == ip then ls else l ∷ later

length-drop_ip :
    (ip : ℕ) (ls : List RoomLease)
    → has_virtual_ip ip ls ≡ true
    → length (drop_ip ip ls) + 1 ≡ length ls
unfolding drop_ip has_virtual_ip
length-drop_ip ip [] h = cc
length-drop_ip ip (l ∷ ls) h = ground (arith, length-drop_ip ip ls)

has_virtual_ip-drop_ip :
    (ip other : ℕ) (ls : List RoomLease)
    → ip ≢ other
    → has_virtual_ip other (drop_ip ip ls) ≡ has_virtual_ip other ls
unfolding drop_ip has_virtual_ip
has_virtual_ip-drop_ip ip other [] ne = refl
has_virtual_ip-drop_ip ip other (l ∷ ls) ne = ground (arith, has_virtual_ip-drop_ip ip other ls ne)

-- `k` addresses in a row need `k` leases.
addresses_need_leases :
    (k base : ℕ) (ls : List RoomLease)
    → ((i : ℕ) → i < k → has_virtual_ip (base + i) ls ≡ true)
    → k ≤ length ls
addresses_need_leases zero base ls all = omega arith
addresses_need_leases (suc k) base ls all =
    let rest : (i : ℕ) → i < k → has_virtual_ip (base + i) (drop_ip (base + k) ls) ≡ true =
      λ i h. has_virtual_ip-drop_ip (base + k) (base + i) ls (omega arith) ∙ all i (omega arith) in
    omega (
      arith,
      addresses_need_leases k base (drop_ip (base + k) ls) rest,
      length-drop_ip (base + k) ls (all k (omega arith)),
    )

taken :
    (k suffix : ℕ) (ls : List RoomLease)
    → first_free_ip (suc k) suffix ls ≡ 0
    → (has_virtual_ip (vnet_subnet + suffix) ls ≡ true) × (first_free_ip k (suffix + 1) ls ≡ 0)
unfolding first_free_ip
taken k suffix ls e = ground arith

first_free_ip_zero :
    (k suffix : ℕ) (ls : List RoomLease)
    → first_free_ip k suffix ls ≡ 0
    → (i : ℕ) → i < k
    → has_virtual_ip (vnet_subnet + suffix + i) ls ≡ true
unfolding first_free_ip
first_free_ip_zero zero suffix ls e i h = absurd (omega arith)
first_free_ip_zero (suc k) suffix ls e zero h =
    subst (λ n. has_virtual_ip n ls ≡ true) (omega arith) (taken k suffix ls e).0
first_free_ip_zero (suc k) suffix ls e (suc i) h =
    subst (λ n. has_virtual_ip n ls ≡ true) (omega arith)
      (first_free_ip_zero k (suffix + 1) ls (taken k suffix ls e).1 i (omega arith))

-- A result other than 0 is an address of the range that no lease has.
first_free_ip_free :
    (k suffix : ℕ) (ls : List RoomLease)
    → first_free_ip k suffix ls ≢ 0
    → (has_virtual_ip (first_free_ip k suffix ls) ls ≡ false)
      × (vnet_subnet + suffix ≤ first_free_ip k suffix ls)
      × (first_free_ip k suffix ls < vnet_subnet + suffix + k)
unfolding first_free_ip
first_free_ip_free zero suffix ls ne = absurd (ne refl)
first_free_ip_free (suc k) suffix ls ne = ground (arith, first_free_ip_free k (suffix + 1) ls)

-- With fewer than 253 leases the allocation succeeds: the address is one of 10.10.0.2 to
-- 10.10.0.254, and no lease of the room has it.
pub allocate_virtual_ip_lem :
    (r : Room)
    → length r.leases < 253
    → (vnet_subnet + 2 ≤ allocate_virtual_ip r)
      × (allocate_virtual_ip r ≤ vnet_subnet + 254)
      × (has_virtual_ip (allocate_virtual_ip r) r.leases ≡ false)
unfolding allocate_virtual_ip
allocate_virtual_ip_lem r few =
    let free = first_free_ip_free 253 2 r.leases found in
    (omega (arith, free.1), omega (arith, free.2), free.0)
  where
    found : first_free_ip 253 2 r.leases ≢ 0
    found = λ e. absurd (
        omega (
          arith,
          addresses_need_leases 253 (vnet_subnet + 2) r.leases
              (first_free_ip_zero 253 2 r.leases e),
        ))
