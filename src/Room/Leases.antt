-- ===== src/Room/Leases.antt =====
-- RoomLease and Room (server/src/room.h). A pointer to a lease is the lease, with `none` for
-- `nullptr`; names and tokens are lists of bytes; `time(nullptr)` is the argument `now`.
use vlan_connect.Prelude.{
  leb, ◌==◌, if◌then◌else◌, length, replicate, ℕ, zero, suc, ◌+◌, ◌-◌, Bool, true, false, ◌||◌,
  Option, none, some, List, [], ◌∷◌, ◌++◌, map,
}
use vlan_connect.Protocol.Constants.{
  vnet_subnet, vnet_first_host_suffix, vnet_last_host_suffix, room_mtu_default, max_players,
  reconnect_lease_timeout_sec, auth_salt_size,
}
use vlan_connect.Protocol.Policy.{
  RoomTrafficPolicy, make_default_tcp_policy, make_default_udp_policy,
}

pub record RoomLease : Type 0 where
  pub peer_id : ℕ
  pub virtual_ip : ℕ
  pub name : List ℕ
  pub token : List ℕ
  pub online : Bool
  pub offline_since : ℕ
  pub expires_at : ℕ

pub record Room : Type 0 where
  pub id : ℕ
  pub name : List ℕ
  pub host_peer_id : ℕ
  pub leases : List RoomLease
  pub max_players : ℕ
  pub tcp_policy : RoomTrafficPolicy
  pub udp_policy : RoomTrafficPolicy
  pub mtu : ℕ
  pub password_protected : ℕ
  pub password_hash : List ℕ
  pub password_salt : List ℕ
  pub empty_timestamp : ℕ

-- The default constructor.
abbrev pub default_room : Room
default_room = record {
  id = 0;
  name = [];
  host_peer_id = 0;
  leases = [];
  max_players = max_players;
  tcp_policy = make_default_tcp_policy;
  udp_policy = make_default_udp_policy;
  mtu = room_mtu_default;
  password_protected = 0;
  password_hash = replicate 32 0;
  password_salt = replicate auth_salt_size 0;
  empty_timestamp = 0;
}

unfoldable pub has_virtual_ip : ℕ → List RoomLease → Bool
has_virtual_ip ip [] = false
has_virtual_ip ip (l ∷ ls) = l.virtual_ip == ip || has_virtual_ip ip ls

-- `for (suffix = first; suffix <= last; ++suffix)`, by the rounds left. The subnet has zeros where
-- the suffix has bits, so that `|` is `+`.
unfoldable pub first_free_ip : ℕ → ℕ → List RoomLease → ℕ
first_free_ip zero suffix ls = 0
first_free_ip (suc k) suffix ls =
    let later = first_free_ip k (suffix + 1) ls in
    if has_virtual_ip (vnet_subnet + suffix) ls then later else vnet_subnet + suffix

unfoldable pub allocate_virtual_ip : Room → ℕ
allocate_virtual_ip r =
    first_free_ip (vnet_last_host_suffix + 1 - vnet_first_host_suffix) vnet_first_host_suffix
      r.leases

unfoldable pub is_full : Room → Bool
is_full r = leb r.max_players (length r.leases)

unfoldable pub find_lease : ℕ → List RoomLease → Option RoomLease
find_lease peer [] = none
find_lease peer (l ∷ ls) = if l.peer_id == peer then some l else find_lease peer ls

unfoldable pub lease_by_peer_id : ℕ → Room → Option RoomLease
lease_by_peer_id peer r = find_lease peer r.leases

abbrev pub is_some {ℓ} : {A : Type ℓ} → Option A → Bool
is_some none = false
is_some (some a) = true

unfoldable pub has_lease : ℕ → Room → Bool
unfolding lease_by_peer_id
has_lease peer r = is_some (lease_by_peer_id peer r)

-- The first member that is online, or else the first member.
unfoldable pub next_host : List RoomLease → ℕ → ℕ
next_host [] front = front
next_host (l ∷ ls) front = if l.online then l.peer_id else next_host ls front

unfoldable pub with_host : List RoomLease → Room → Room
unfolding has_lease
with_host [] r = record r { host_peer_id = 0 }
with_host (l ∷ ls) r =
    if has_lease r.host_peer_id r
    then r
    else record r { host_peer_id = next_host (l ∷ ls) l.peer_id }

unfoldable pub ensure_host : Room → Room
unfolding with_host
ensure_host r = with_host r.leases r

abbrev pub new_lease : ℕ → ℕ → List ℕ → List ℕ → RoomLease
new_lease peer ip name token = record {
  peer_id = peer;
  virtual_ip = ip;
  name = name;
  token = token;
  online = true;
  offline_since = 0;
  expires_at = 0;
}

unfoldable pub add_lease : ℕ → List ℕ → List ℕ → Room → Option RoomLease × Room
add_lease peer name token r =
    let ip = allocate_virtual_ip r in
    let lease = new_lease peer ip name token in
    if is_full r || has_lease peer r then (none, r) else if ip == 0 then (none, r) else (
      some lease,
      ensure_host (record r { leases = r.leases ++ lease ∷ []; empty_timestamp = 0 }),
    )

-- Erases the first lease of the peer.
unfoldable pub erase_lease : ℕ → List RoomLease → List RoomLease
erase_lease peer [] = []
erase_lease peer (l ∷ ls) =
    let later = erase_lease peer ls in if l.peer_id == peer then ls else l ∷ later

abbrev pub is_empty {ℓ} : {A : Type ℓ} → List A → Bool
is_empty [] = true
is_empty (x ∷ xs) = false

unfoldable pub remove_lease : ℕ → ℕ → Room → Bool × Room
remove_lease now peer r =
    let left = erase_lease peer r.leases in
    let stamp = if is_empty left then now else r.empty_timestamp in
    if has_lease peer r
    then (true, ensure_host (record r { leases = left; empty_timestamp = stamp }))
    else (false, r)

-- A write through the pointer that `leaseByPeerId` returns.
unfoldable pub update_lease : ℕ → (RoomLease → RoomLease) → List RoomLease → List RoomLease
update_lease peer f [] = []
update_lease peer f (l ∷ ls) =
    let later = update_lease peer f ls in if l.peer_id == peer then f l ∷ ls else l ∷ later

abbrev pub offline : ℕ → RoomLease → RoomLease
offline now l = record l {
  online = false;
  offline_since = now;
  expires_at = now + reconnect_lease_timeout_sec;
}

abbrev pub back_online : RoomLease → RoomLease
back_online l = record l { online = true; offline_since = 0; expires_at = 0 }

unfoldable pub mark_lease_offline : ℕ → ℕ → Room → Bool × Room
mark_lease_offline peer now r =
    if has_lease peer r
    then (true, record r { leases = update_lease peer (offline now) r.leases })
    else (false, r)

unfoldable pub mark_lease_online : ℕ → Room → Bool × Room
mark_lease_online peer r =
    if has_lease peer r
    then (true, ensure_host (record r { leases = update_lease peer back_online r.leases }))
    else (false, r)

unfoldable pub peer_ids : Room → List ℕ
peer_ids r = map (λ l. l.peer_id) r.leases
