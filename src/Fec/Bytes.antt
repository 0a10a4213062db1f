-- ===== src/Fec/Bytes.antt =====
-- The decoder's account of its memory (client-cli/src/cli_fec.cpp).
use vlan_connect.Prelude.{
  ltb, Bool-cases, Option-cases, length, ℕ, suc, ◌+◌, ◌≤◌, ◌≡◌, refl, sym, ◌⊎◌, inl, inr, true,
  false, Option, none, some, List, [], ◌∷◌, arith,
}
use vlan_connect.Prelude.Map.{find, insert, erase, Rising, find_below, erase-Rising, length-erase}
use vlan_connect.Room.Leases.{is_some, is_empty}
use vlan_connect.Protocol.Constants.{fec_max_buffered_bytes, fec_max_active_groups}
use vlan_connect.Fec.Decoder.{
  FecGroup, FecDecoder, blocks_bytes, remove_group, oldest, oldest_group,
}

-- The bytes of every block that is stored.
unfoldable pub groups_bytes : List (ℕ × FecGroup) → ℕ
groups_bytes [] = 0
groups_bytes ((gid, g) ∷ gs) = blocks_bytes g.blocks + groups_bytes gs

-- The memory is counted exactly and stays within its two limits.
pub record IsValid (d : FecDecoder) : Type 0 where
  pub rise : Rising 0 d.groups
  pub counted : d.buffered_bytes ≡ groups_bytes d.groups
  pub within : d.buffered_bytes ≤ fec_max_buffered_bytes
  pub few : length d.groups ≤ fec_max_active_groups

pub blocks_bytes-insert :
    (i : ℕ) (b : List ℕ) (bs : List (ℕ × List ℕ))
    → find i bs ≡ none
    → blocks_bytes (insert i b bs) ≡ length b + blocks_bytes bs
unfolding find insert blocks_bytes
blocks_bytes-insert i b [] e = refl
blocks_bytes-insert i b ((j, c) ∷ bs) e = ground (arith, blocks_bytes-insert i b bs)

pub groups_bytes-insert_new :
    (gid : ℕ) (g : FecGroup) (gs : List (ℕ × FecGroup))
    → find gid gs ≡ none
    → groups_bytes (insert gid g gs) ≡ blocks_bytes g.blocks + groups_bytes gs
unfolding find insert groups_bytes
groups_bytes-insert_new gid g [] e = refl
groups_bytes-insert_new gid g ((j, h) ∷ gs) e = ground (arith, groups_bytes-insert_new gid g gs)

pub groups_bytes-insert_old :
    (gid lo : ℕ) (g old : FecGroup) (gs : List (ℕ × FecGroup))
    → Rising lo gs
    → find gid gs ≡ some old
    → groups_bytes (insert gid g gs) + blocks_bytes old.blocks
      ≡ blocks_bytes g.blocks + groups_bytes gs
unfolding find insert groups_bytes
groups_bytes-insert_old gid lo g old [] r e = cc
groups_bytes-insert_old gid lo g old ((j, h) ∷ gs) r e =
    ground (arith, groups_bytes-insert_old gid (suc j) g old gs r.1, find_below gid (suc j) gs r.1)

pub groups_bytes-erase :
    (gid : ℕ) (g : FecGroup) (gs : List (ℕ × FecGroup))
    → find gid gs ≡ some g
    → groups_bytes (erase gid gs) + blocks_bytes g.blocks ≡ groups_bytes gs
unfolding find erase groups_bytes
groups_bytes-erase gid g [] e = cc
groups_bytes-erase gid g ((j, h) ∷ gs) e = ground (arith, groups_bytes-erase gid g gs)

here :
    (k j : ℕ) (g : FecGroup) (gs : List (ℕ × FecGroup))
    → k ≡ j
    → is_some (find k ((j, g) ∷ gs)) ≡ true
unfolding find
here k j g gs e = ground arith

later :
    (k j : ℕ) (g : FecGroup) (gs : List (ℕ × FecGroup))
    → is_some (find k gs) ≡ true
    → is_some (find k ((j, g) ∷ gs)) ≡ true
unfolding find
later k j g gs e = ground arith

-- The oldest group is one of the groups.
oldest_mem :
    (gid time : ℕ) (gs : List (ℕ × FecGroup))
    → (oldest gid time gs ≡ gid) ⊎ (is_some (find (oldest gid time gs) gs) ≡ true)
unfolding oldest
oldest_mem gid time [] = inl refl
oldest_mem gid time ((j, g) ∷ gs) = elim (Bool-cases (ltb g.create_time time)) [
  | inl older ↦ rw older (elim (oldest_mem j g.create_time gs) [
    | inl e ↦ inr (here _ j g gs e)
    | inr e ↦ inr (later _ j g gs e)
  ])
  | inr newer ↦
      rw newer (elim (oldest_mem gid time gs) [ inl e ↦ inl e | inr e ↦ inr (later _ j g gs e) ])
]

some_oldest :
    (gs : List (ℕ × FecGroup)) → is_empty gs ≡ false → is_some (find (oldest_group gs) gs) ≡ true
unfolding oldest_group find
some_oldest [] h = sym h
some_oldest ((j, g) ∷ gs) h = elim (oldest_mem j g.create_time gs) [
  | inl e ↦ here _ j g gs e
  | inr e ↦ later _ j g gs e
]

is_some_inv {ℓ} : {A : Type ℓ} (o : Option A) → is_some o ≡ true → (a : A) × (o ≡ some a)
is_some_inv none h = cc
is_some_inv (some a) h = (a, refl)

pub oldest_group_mem :
    (gs : List (ℕ × FecGroup))
    → is_empty gs ≡ false
    → (g : FecGroup) × (find (oldest_group gs) gs ≡ some g)
oldest_group_mem gs h = is_some_inv (find (oldest_group gs) gs) (some_oldest gs h)

pub remove_group-IsValid : (gid : ℕ) (d : FecDecoder) → IsValid d → IsValid (remove_group gid d)
unfolding remove_group
remove_group-IsValid gid d v = elim (Option-cases (find gid d.groups)) [
  | inl e ↦ rw (e, remove_group) v
  | inr (g, e) ↦
      rw (e, remove_group)
        (ground (
          arith,
          erase-Rising gid 0 d.groups,
          groups_bytes-erase gid g d.groups,
          length-erase gid g d.groups,
        ))
]

pub remove_group-output : (gid : ℕ) (d : FecDecoder) → (remove_group gid d).output ≡ d.output
unfolding remove_group
remove_group-output gid d = ground arith
