-- ===== src/Fec/Capacity.antt =====
-- CliFecDecoder::ensureCapacity (client-cli/src/cli_fec.cpp): its loop ends, and makes the room.
use vlan_connect.Prelude.{
  ltb, leb, ◌==◌, Bool-cases, Option-cases, length, ℕ, zero, suc, ◌≤◌, ◌<◌, ◌≡◌, refl, ap, ◌∙◌, ◌⊎◌,
  inl, inr, Bool, true, false, none, some, List, [], ◌∷◌, arith,
}
use vlan_connect.Prelude.Map.{find, find-erase, length-erase}
use vlan_connect.Room.Leases.{is_empty}
use vlan_connect.Protocol.Constants.{fec_max_buffered_bytes}
use vlan_connect.Fec.Decoder.{
  FecGroup, FecDecoder, remove_group, oldest_group, must_evict, evict, has_room, ensure_capacity,
}
use vlan_connect.Fec.Bytes.{
  groups_bytes, IsValid, oldest_group_mem, remove_group-IsValid, remove_group-output,
}

-- A round removes one group.
length-remove_oldest :
    (d : FecDecoder)
    → is_empty d.groups ≡ false
    → length d.groups ≡ suc (length (remove_group (oldest_group d.groups) d).groups)
unfolding remove_group
length-remove_oldest d h =
    let (g, e) = oldest_group_mem d.groups h in
    rw (e, remove_group) (length-erase (oldest_group d.groups) g d.groups e)

not-must_evict :
    (incoming : ℕ) (new_group : Bool) (d : FecDecoder)
    → IsValid d
    → incoming ≤ fec_max_buffered_bytes
    → must_evict incoming new_group d ≡ false
    → has_room incoming new_group d ≡ true
unfolding must_evict has_room groups_bytes
not-must_evict incoming new_group d v h e = at d.groups refl
  where
    at : (gs : List (ℕ × FecGroup)) → d.groups ≡ gs → has_room incoming new_group d ≡ true
    at [] q =
        let none_left : d.buffered_bytes ≡ 0 = v.counted ∙ ap groups_bytes q in
        let no_group : length d.groups ≡ 0 = ap length q in ground arith
    at (p ∷ gs) q = let some_left : is_empty d.groups ≡ false = ap is_empty q in ground arith

has_groups :
    (incoming : ℕ) (new_group : Bool) (d : FecDecoder)
    → must_evict incoming new_group d ≡ true
    → is_empty d.groups ≡ false
unfolding must_evict
has_groups incoming new_group d h = ground arith

-- Every group is as it was, or gone.
abbrev pub Keeps : FecDecoder → FecDecoder → Type 0
Keeps d d' = (k : ℕ) → (find k d'.groups ≡ none) ⊎ (find k d'.groups ≡ find k d.groups)

remove_group-Keeps : (gid : ℕ) (d : FecDecoder) → IsValid d → Keeps d (remove_group gid d)
unfolding remove_group
remove_group-Keeps gid d v k = elim (Option-cases (find gid d.groups)) [
  | inl e ↦ rw (remove_group, e) (inr refl)
  | inr (g, e) ↦
      rw (remove_group, e, find-erase gid k 0 d.groups v.rise)
        (elim (Bool-cases (gid == k)) [
          | inl same ↦ rw same (inl refl)
          | inr differ ↦ rw differ (inr refl)
        ])
]

Keeps-trans : (a b c : FecDecoder) → Keeps a b → Keeps b c → Keeps a c
Keeps-trans a b c p q k = elim (q k) [
  | inl gone ↦ inl gone
  | inr same ↦ elim (p k) [ inl gone ↦ inl (same ∙ gone) | inr before ↦ inr (same ∙ before) ]
]

-- What a run of the loop leaves.
abbrev pub Evicted : ℕ → Bool → FecDecoder → FecDecoder → Type 0
Evicted incoming new_group d d' =
    IsValid d' × (has_room incoming new_group d' ≡ true) × (d'.output ≡ d.output) × Keeps d d'

-- For a decoder in order and a block of at most 256 KiB, with fuel for one round more than there are
-- groups, the loop of `ensureCapacity` ends, and the block has its room. No output is made.
evict_total :
    (fuel incoming : ℕ) (new_group : Bool) (d : FecDecoder)
    → IsValid d
    → incoming ≤ fec_max_buffered_bytes
    → length d.groups < fuel
    → (d' : FecDecoder) × (evict fuel incoming new_group d ≡ some d')
      × Evicted incoming new_group d d'
unfolding evict
evict_total zero incoming new_group d v h f = absurd (omega arith)
evict_total (suc fuel) incoming new_group d v h f =
    elim (Bool-cases (must_evict incoming new_group d)) [
      | inr stop ↦
          (d, rw stop, (v, not-must_evict incoming new_group d v h stop, refl, λ k. inr refl))
      | inl more ↦
          let busy : is_empty d.groups ≡ false = has_groups incoming new_group d more in
          let fewer = length-remove_oldest d busy in
          let next = remove_group (oldest_group d.groups) d in
          let (d', e, (v', room, out, kept)) =
            evict_total fuel incoming new_group next (remove_group-IsValid _ d v) h (omega arith) in
          (
            d',
            rw more e,
            (
              v',
              room,
              out ∙ remove_group-output _ d,
              Keeps-trans d next d' (remove_group-Keeps _ d v) kept,
            ),
          )
    ]

-- `ensureCapacity` says yes exactly for a block that fits the memory at all. It keeps the account,
-- makes the room when it says yes, makes no output, and leaves every group as it was or drops it.
pub ensure_capacity_lem :
    (incoming : ℕ) (new_group : Bool) (d : FecDecoder)
    → IsValid d
    → let (ok, d') = ensure_capacity incoming new_group d in
      IsValid d'
      × (d'.output ≡ d.output)
      × (ok ≡ leb incoming fec_max_buffered_bytes)
      × (ok ≡ true → has_room incoming new_group d' ≡ true)
      × Keeps d d'
unfolding ensure_capacity
ensure_capacity_lem incoming new_group d v =
    elim (Bool-cases (ltb fec_max_buffered_bytes incoming)) [
      | inl big ↦ rw big (v, refl, ground arith, (λ h. cc), λ k. inr refl)
      | inr fits ↦
          let (d', e, (v', room, out, kept)) =
            evict_total (suc (length d.groups)) incoming new_group d v (ground arith)
              (omega arith) in
          rw (fits, e) (v', out, ground arith, (λ h. room), kept)
    ]
