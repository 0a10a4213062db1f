-- ===== src/Session/Index.antt =====
-- bindUniqueSessionIndex and unbindSessionIndex (server/src/room.h): a key belongs to one socket.
use vlan_connect.Prelude.{
  ◌==◌, if◌then◌else◌, Bool-cases, Option-cases, ℕ, ◌≡◌, refl, ◌≢◌, ◌↔◌, inl, inr, Bool, true,
  false, none, some, List, arith,
}
use vlan_connect.Prelude.Map.{find, insert, erase, Rising, find-insert, find-erase, insert-Rising}

unfoldable pub bind_unique_session_index : ℕ → ℕ → List (ℕ × ℕ) → Bool × List (ℕ × ℕ)
bind_unique_session_index key fd index = elim (find key index) [
  | none ↦ (true, insert key fd index)
  | some owner ↦ if owner == fd then (true, insert key fd index) else (false, index)
]

unfoldable pub unbind_session_index : ℕ → ℕ → List (ℕ × ℕ) → List (ℕ × ℕ)
unbind_session_index key fd index = elim (find key index) [
  | none ↦ index
  | some owner ↦ if owner == fd then erase key index else index
]

-- Binding takes a key for a socket exactly when no other socket has it, and changes no other key.
-- A refused binding changes nothing.
pub bind_unique_session_index_lem :
    (key fd : ℕ) (index : List (ℕ × ℕ))
    → let (ok, index') = bind_unique_session_index key fd index in
      (ok ≡ true → (k : ℕ) → find k index' ≡ (if key == k then some fd else find k index))
      × (ok ≡ false → index' ≡ index)
      × ((ok ≡ false) ↔ ((owner : ℕ) × (find key index ≡ some owner) × (owner ≢ fd)))
unfolding bind_unique_session_index
bind_unique_session_index_lem key fd index = elim (Option-cases (find key index)) [
  | inl none_yet ↦ (
    rw (none_yet, bind_unique_session_index) (λ h k. find-insert key k fd index),
    rw (none_yet, bind_unique_session_index) (λ h. cc),
    rw (none_yet, bind_unique_session_index) ((λ h. cc), (λ h. cc)),
  )
  | inr (owner, found) ↦ elim (Bool-cases (owner == fd)) [
    | inl same ↦ (
      rw (found, bind_unique_session_index, same) (λ h k. find-insert key k fd index),
      rw (found, bind_unique_session_index, same) (λ h. cc),
      rw (found, bind_unique_session_index, same) ((λ h. cc), (λ h. ground arith)),
    )
    | inr differ ↦ (
      rw (found, bind_unique_session_index, differ) (λ h. cc),
      rw (found, bind_unique_session_index, differ) (λ h. refl),
      rw (found, bind_unique_session_index, differ)
          ((λ h. (owner, refl, λ e. ground arith)), (λ h. refl)),
    )
  ]
]

-- A socket gives up only its own key: unbinding by another socket changes nothing, and what one
-- has bound alone, its unbinding removes.
pub unbind-bind :
    (key fd other : ℕ) (index : List (ℕ × ℕ))
    → Rising 0 index
    → find key index ≡ none
    → fd ≢ other
    → let index' = (bind_unique_session_index key fd index).1 in
      (unbind_session_index key other index' ≡ index')
      × ((k : ℕ) → find k (unbind_session_index key fd index') ≡ find k index)
unfolding bind_unique_session_index unbind_session_index
unbind-bind key fd other index rising free differ =
    let bound = λ (k : ℕ). find-insert key k fd index in
    let mine : find key (insert key fd index) ≡ some fd = ground (arith, bound key) in
    let gone = λ (k : ℕ).
      find-erase key k 0 (insert key fd index)
        (insert-Rising key 0 fd index (omega arith) rising) in
    (
      rw (free, bind_unique_session_index, unbind_session_index, mine) (ground arith),
      λ k.
          rw (free, bind_unique_session_index, unbind_session_index, mine)
            (ground (arith, gone k, bound k)),
    )
