-- ===== src/Prelude/Map.antt =====
-- `std::map` and `std::set` with a number for a key: lists in the order of their keys.
use vlan_connect.Prelude.Lists.{length}
use vlan_connect.Prelude.Tests.{ltb, ◌==◌, if◌then◌else◌}
use Prim.Native.Nat.{ℕ, suc, ◌+◌, ◌≤◌, ◌<◌}
use mathlib.Core.Path.{◌≡◌, refl}
use mathlib.Core.Bool.{Bool, false, ◌||◌}
use mathlib.Core.List.{List, [], ◌∷◌}
use mathlib.Core.Option.{Option, none, some}
use native.Mathlib.Omega.{arith}

module _ {A : Type 0} where
  unfoldable pub find : ℕ → List (ℕ × A) → Option A
  find k [] = none
  find k ((j, v) ∷ m) = if j == k then some v else find k m

  -- `m[k] = v`
  unfoldable pub insert : ℕ → A → List (ℕ × A) → List (ℕ × A)
  insert k v [] = (k, v) ∷ []
  insert k v ((j, w) ∷ m) =
      let later = insert k v m in
      if j == k then (k, v) ∷ m else if ltb k j then (k, v) ∷ (j, w) ∷ m else (j, w) ∷ later

  unfoldable pub erase : ℕ → List (ℕ × A) → List (ℕ × A)
  erase k [] = []
  erase k ((j, v) ∷ m) = let later = erase k m in if j == k then m else (j, v) ∷ later

  -- The keys rise along the list, from above `lo`.
  abbrev pub Rising : ℕ → List (ℕ × A) → Type 0
  Rising lo [] = Unit
  Rising lo ((j, v) ∷ m) = (lo ≤ j) × Rising (suc j) m

  pub find_below : (k lo : ℕ) (m : List (ℕ × A)) → Rising lo m → k < lo → find k m ≡ none
  unfolding find
  find_below k lo [] r h = refl
  find_below k lo ((j, v) ∷ m) r h = ground (arith, find_below k (suc j) m r.1)

  pub find-insert :
      (k i : ℕ) (v : A) (m : List (ℕ × A))
      → find i (insert k v m) ≡ (if k == i then some v else find i m)
  unfolding find insert
  find-insert k i v [] = refl
  find-insert k i v ((j, w) ∷ m) = ground (arith, find-insert k i v m)

  pub find-erase :
      (k i lo : ℕ) (m : List (ℕ × A))
      → Rising lo m
      → find i (erase k m) ≡ (if k == i then none else find i m)
  unfolding find erase
  find-erase k i lo [] r = ground arith
  find-erase k i lo ((j, v) ∷ m) r =
      ground (arith, find-erase k i (suc j) m r.1, find_below i (suc j) m r.1)

  pub insert-Rising :
      (k lo : ℕ) (v : A) (m : List (ℕ × A)) → lo ≤ k → Rising lo m → Rising lo (insert k v m)
  unfolding insert
  insert-Rising k lo v [] h r = (h, tt)
  insert-Rising k lo v ((j, w) ∷ m) h r = ground (arith, insert-Rising k (suc j) v m)

  pub Rising-mono : (lo hi : ℕ) (m : List (ℕ × A)) → lo ≤ hi → Rising hi m → Rising lo m
  Rising-mono lo hi [] h r = tt
  Rising-mono lo hi ((j, v) ∷ m) h r = (omega arith, r.1)

  pub erase-Rising : (k lo : ℕ) (m : List (ℕ × A)) → Rising lo m → Rising lo (erase k m)
  unfolding erase
  erase-Rising k lo [] r = tt
  erase-Rising k lo ((j, v) ∷ m) r =
      ground (arith, erase-Rising k (suc j) m r.1, Rising-mono lo (suc j) m)

  pub length-erase :
      (k : ℕ) (v : A) (m : List (ℕ × A)) → find k m ≡ some v → length m ≡ suc (length (erase k m))
  unfolding find erase
  length-erase k v [] e = cc
  length-erase k v ((j, w) ∷ m) e = ground (arith, length-erase k v m)

  pub length-insert_new :
      (k : ℕ) (v : A) (m : List (ℕ × A)) → find k m ≡ none → length (insert k v m) ≡ suc (length m)
  unfolding find insert
  length-insert_new k v [] e = refl
  length-insert_new k v ((j, w) ∷ m) e = ground (arith, length-insert_new k v m)

  pub length-insert_old :
      (k lo : ℕ) (v w : A) (m : List (ℕ × A))
      → Rising lo m
      → find k m ≡ some w
      → length (insert k v m) ≡ length m
  unfolding find insert
  length-insert_old k lo v w [] r e = cc
  length-insert_old k lo v w ((j, x) ∷ m) r e =
      ground (arith, length-insert_old k (suc j) v w m r.1, find_below k (suc j) m r.1)

  pub erase_absent : (k : ℕ) (m : List (ℕ × A)) → find k m ≡ none → erase k m ≡ m
  unfolding find erase
  erase_absent k [] e = refl
  erase_absent k ((j, v) ∷ m) e = ground (arith, erase_absent k m)

-- The sum of a weight over the values.
module _ {A : Type 0} (weight : A → ℕ) where
  unfoldable pub total : List (ℕ × A) → ℕ
  total [] = 0
  total ((j, v) ∷ m) = weight v + total m

  pub total-insert_new :
      (k : ℕ) (v : A) (m : List (ℕ × A))
      → find k m ≡ none
      → total (insert k v m) ≡ weight v + total m
  unfolding find insert total
  total-insert_new k v [] e = refl
  total-insert_new k v ((j, w) ∷ m) e = ground (arith, total-insert_new k v m)

  pub total-insert_old :
      (k lo : ℕ) (v old : A) (m : List (ℕ × A))
      → Rising lo m
      → find k m ≡ some old
      → total (insert k v m) + weight old ≡ weight v + total m
  unfolding find insert total
  total-insert_old k lo v old [] r e = cc
  total-insert_old k lo v old ((j, w) ∷ m) r e =
      ground (arith, total-insert_old k (suc j) v old m r.1, find_below k (suc j) m r.1)

  pub total-erase :
      (k : ℕ) (v : A) (m : List (ℕ × A))
      → find k m ≡ some v
      → total (erase k m) + weight v ≡ total m
  unfolding find erase total
  total-erase k v [] e = cc
  total-erase k v ((j, w) ∷ m) e = ground (arith, total-erase k v m)

-- A set of numbers.
unfoldable pub set_mem : ℕ → List ℕ → Bool
set_mem k [] = false
set_mem k (j ∷ s) = j == k || set_mem k s

unfoldable pub set_insert : ℕ → List ℕ → List ℕ
set_insert k [] = k ∷ []
set_insert k (j ∷ s) =
    let later = set_insert k s in if j == k then j ∷ s else if ltb k j then k ∷ j ∷ s else j ∷ later

abbrev pub SetRising : ℕ → List ℕ → Type 0
SetRising lo [] = Unit
SetRising lo (j ∷ s) = (lo ≤ j) × SetRising (suc j) s

pub set_mem-set_insert :
    (k i : ℕ) (s : List ℕ) → set_mem i (set_insert k s) ≡ (k == i || set_mem i s)
unfolding set_mem set_insert
set_mem-set_insert k i [] = refl
set_mem-set_insert k i (j ∷ s) = ground (arith, set_mem-set_insert k i s)

pub set_mem_below : (k lo : ℕ) (s : List ℕ) → SetRising lo s → k < lo → set_mem k s ≡ false
unfolding set_mem
set_mem_below k lo [] r h = refl
set_mem_below k lo (j ∷ s) r h = ground (arith, set_mem_below k (suc j) s r.1)

pub set_insert-SetRising :
    (k lo : ℕ) (s : List ℕ) → lo ≤ k → SetRising lo s → SetRising lo (set_insert k s)
unfolding set_insert
set_insert-SetRising k lo [] h r = (h, tt)
set_insert-SetRising k lo (j ∷ s) h r = ground (arith, set_insert-SetRising k (suc j) s)
