-- ===== src/SecureFrame/Spec.antt =====
-- What the replay window promises: the list of the counters that were accepted, newest first.
-- A counter is allowed if it was not accepted before and is less than 2048 behind the largest.
use vlan_connect.Prelude.{
  ltb, leb, ◌==◌, if◌then◌else◌, Bool-cases, ℕ, zero, suc, ◌+◌, ◌-◌, ◌%◌, ◌≤◌, ◌<◌, ◌≡◌, refl, sym,
  ◌∙◌, subst, ◌≢◌, inl, inr, Bool, true, false, not, ◌&&◌, ◌||◌, List, [], ◌∷◌, arith, dec_lt,
  dec_le,
}
use vlan_connect.SecureFrame.Bitmap.{
  replay_window, zero_bitmap, test_pos, clear_pos, IsBitmap, zero_bitmap-IsBitmap,
  test_pos-zero_bitmap, set_pos-IsBitmap, clear_pos-IsBitmap, test_pos-set_pos, test_pos-clear_pos,
}
use vlan_connect.SecureFrame.Window.{
  SecureFrameCipher, is_counter_allowed, clear_range, mark, record_counter,
}

abbrev pub elem : ℕ → List ℕ → Bool
elem q [] = false
elem q (h ∷ hs) = q == h || elem q hs

abbrev pub maximum : List ℕ → ℕ
maximum [] = 0
maximum (h ∷ hs) = if ltb (maximum hs) h then h else maximum hs

abbrev pub allowed : List ℕ → ℕ → Bool
allowed [] ctr = true
allowed (h ∷ hs) ctr = not (elem ctr (h ∷ hs)) && ltb (maximum (h ∷ hs)) (ctr + replay_window)

pub elem-le-maximum : (q : ℕ) (hs : List ℕ) → elem q hs ≡ true → q ≤ maximum hs
elem-le-maximum q [] e = cc
elem-le-maximum q (h ∷ hs) e = ground (arith, elem-le-maximum q hs)

-- The window of a cipher holds the counters of the history that are still in reach.
pub record Tracks (s : SecureFrameCipher) (hs : List ℕ) : Type 0 where
  pub valid : IsBitmap s.replay_bitmap
  pub fresh : s.recv_started ≡ false → hs ≡ []
  pub started : s.recv_started ≡ true → hs ≢ []
  pub top : s.recv_started ≡ true → maximum hs ≡ s.recv_max_counter
  pub window :
      s.recv_started ≡ true
      → (q : ℕ) → q ≤ s.recv_max_counter
      → s.recv_max_counter < q + replay_window
      → test_pos s.replay_bitmap (q % replay_window) ≡ elem q hs

-- While the window tracks the history, the check of a counter is that of the specification.
pub is_counter_allowed-eq-allowed :
    (s : SecureFrameCipher) (hs : List ℕ) (ctr : ℕ)
    → Tracks s hs
    → is_counter_allowed s ctr ≡ allowed hs ctr
unfolding is_counter_allowed
is_counter_allowed-eq-allowed s [] ctr t = elim (Bool-cases s.recv_started) [
  | inl on ↦ absurd (t.started on refl)
  | inr off ↦ rw off
]
is_counter_allowed-eq-allowed s (h ∷ hs) ctr t = elim (Bool-cases s.recv_started) [
  | inl on ↦ ground (arith, t.top on, t.window on ctr, elem-le-maximum ctr (h ∷ hs))
  | inr off ↦ cc (t.fresh off)
]

clear_range_lem :
    (k i m : ℕ) (bm : List ℕ)
    → IsBitmap bm
    → IsBitmap (clear_range k i m bm)
      × ((q : ℕ)
          → q < replay_window
          → test_pos (clear_range k i m bm) q ≡ true
          → test_pos bm q ≡ true)
unfolding clear_range
clear_range_lem zero i m bm v = (v, λ q h e. e)
clear_range_lem (suc k) i m bm v =
    let pos : ℕ = (m + i) % replay_window in
    let rest = clear_range_lem k (i + 1) m (clear_pos bm pos) (clear_pos-IsBitmap bm v pos) in
    (rest.0, λ q h e. ground (arith, rest.1 q h e, test_pos-clear_pos bm v pos q (omega arith) h))

-- Every bit in the range is cleared.
clear_range_hit :
    (k i m j : ℕ) (bm : List ℕ)
    → IsBitmap bm
    → i ≤ j
    → j < i + k
    → test_pos (clear_range k i m bm) ((m + j) % replay_window) ≡ false
unfolding clear_range
clear_range_hit zero i m j bm v lo hi = absurd (omega arith)
clear_range_hit (suc k) i m j bm v lo hi =
    let pos : ℕ = (m + i) % replay_window in
    let v' = clear_pos-IsBitmap bm v pos in
    elim (dec_lt i j) [
      | yes later ↦ clear_range_hit k (i + 1) m j (clear_pos bm pos) v' (omega arith) (omega arith)
      | no here ↦
          elim (Bool-cases
            (test_pos (clear_range k (i + 1) m (clear_pos bm pos)) ((m + j) % replay_window))) [
              | inl on ↦ ground (
                arith,
                (clear_range_lem k (i + 1) m (clear_pos bm pos) v').1 ((m + j) % replay_window)
                    (omega arith) on,
                test_pos-clear_pos bm v pos ((m + j) % replay_window) (omega arith) (omega arith),
              )
              | inr off ↦ off
            ]
    ]

-- A bit outside the range is kept.
clear_range_miss :
    (k i m q : ℕ) (bm : List ℕ)
    → IsBitmap bm
    → q < m + i
    → m + i + k ≤ q + replay_window
    → test_pos (clear_range k i m bm) (q % replay_window) ≡ test_pos bm (q % replay_window)
unfolding clear_range
clear_range_miss zero i m q bm v lo hi = refl
clear_range_miss (suc k) i m q bm v lo hi =
    let pos : ℕ = (m + i) % replay_window in
    clear_range_miss k (i + 1) m q (clear_pos bm pos) (clear_pos-IsBitmap bm v pos) (omega arith)
      (omega arith)
    ∙ ground (arith, test_pos-clear_pos bm v pos (q % replay_window) (omega arith) (omega arith))

-- The common end of `record_counter`, on a window that is already moved to hold `ctr`.
mark_lem :
    (s : SecureFrameCipher) (hs : List ℕ) (ctr : ℕ)
    → IsBitmap s.replay_bitmap
    → s.recv_started ≡ true
    → maximum (ctr ∷ hs) ≡ s.recv_max_counter
    → ((q : ℕ)
        → q ≤ s.recv_max_counter
        → s.recv_max_counter < q + replay_window
        → test_pos s.replay_bitmap (q % replay_window) ≡ elem q hs)
    → elem ctr hs ≡ false
    → ctr ≤ s.recv_max_counter
    → s.recv_max_counter < ctr + replay_window
    → ((mark s ctr).0 ≡ true) × Tracks (mark s ctr).1 (ctr ∷ hs)
unfolding mark
mark_lem s hs ctr v on top bits new le near = rw (bits ctr le near ∙ new) (
  refl,
  record {
    valid = set_pos-IsBitmap s.replay_bitmap v (ctr % replay_window);
    fresh = λ off. cc;
    started = λ _ e. cc;
    top = λ _. top;
    window = λ _ q h k. ground (
      arith,
      bits q h k,
      test_pos-set_pos s.replay_bitmap v (ctr % replay_window) (q % replay_window) (omega arith)
          (omega arith),
    );
  },
)

pub not-elem_above : (q : ℕ) (hs : List ℕ) → maximum hs < q → elem q hs ≡ false
not-elem_above q hs h = elim (Bool-cases (elem q hs)) [
  | inl e ↦ absurd (omega (arith, elem-le-maximum q hs e))
  | inr e ↦ e
]

module _ (s : SecureFrameCipher) (hs : List ℕ) (ctr : ℕ) (t : Tracks s hs)
    (on : s.recv_started ≡ true) where
  abbrev moved : List ℕ → SecureFrameCipher
  moved bm = record s { recv_max_counter = ctr; replay_bitmap = bm }

  far_ahead :
      s.recv_max_counter < ctr
      → replay_window ≤ ctr - s.recv_max_counter
      → ((mark (moved zero_bitmap) ctr).0 ≡ true)
        × Tracks (mark (moved zero_bitmap) ctr).1 (ctr ∷ hs)
  far_ahead ahead far =
      mark_lem (moved zero_bitmap) hs ctr zero_bitmap-IsBitmap on (ground (arith, t.top on))
        (λ q le near.
          test_pos-zero_bitmap (q % replay_window)
          ∙ sym (not-elem_above q hs (omega (arith, t.top on))))
        (not-elem_above ctr hs (omega (arith, t.top on))) (omega arith) (omega arith)

  abbrev shifted : List ℕ
  shifted = clear_range (ctr - s.recv_max_counter) 1 s.recv_max_counter s.replay_bitmap

  shifted_bits :
      s.recv_max_counter < ctr
      → ctr - s.recv_max_counter < replay_window
      → (q : ℕ) → q ≤ ctr
      → ctr < q + replay_window
      → test_pos shifted (q % replay_window) ≡ elem q hs
  shifted_bits ahead near q le reach = elim (dec_le q s.recv_max_counter) [
    | yes old ↦
        clear_range_miss (ctr - s.recv_max_counter) 1 s.recv_max_counter q s.replay_bitmap t.valid
          (omega arith) (omega arith)
        ∙ t.window on q old (omega arith)
    | no new ↦
        subst (λ k. test_pos shifted (k % replay_window) ≡ false) (omega arith)
          (clear_range_hit (ctr - s.recv_max_counter) 1 s.recv_max_counter (q - s.recv_max_counter)
            s.replay_bitmap t.valid (omega arith) (omega arith))
        ∙ sym (not-elem_above q hs (omega (arith, t.top on)))
  ]

  just_ahead :
      s.recv_max_counter < ctr
      → ctr - s.recv_max_counter < replay_window
      → ((mark (moved shifted) ctr).0 ≡ true) × Tracks (mark (moved shifted) ctr).1 (ctr ∷ hs)
  just_ahead ahead near =
      mark_lem (moved shifted) hs ctr
        (clear_range_lem (ctr - s.recv_max_counter) 1 s.recv_max_counter s.replay_bitmap t.valid).0
        on (ground (arith, t.top on)) (shifted_bits ahead near)
        (not-elem_above ctr hs (omega (arith, t.top on))) (omega arith) (omega arith)

  within :
      ctr ≤ s.recv_max_counter
      → s.recv_max_counter < ctr + replay_window
      → elem ctr hs ≡ false
      → ((mark s ctr).0 ≡ true) × Tracks (mark s ctr).1 (ctr ∷ hs)
  within le near new =
      mark_lem s hs ctr t.valid on (ground (arith, t.top on)) (t.window on) new le near

-- The branches of `record_counter`.
module _ (s : SecureFrameCipher) (ctr : ℕ) where
  branch_first :
      s.recv_started ≡ false
      → record_counter s ctr
        ≡ mark
            (record s { recv_started = true; recv_max_counter = ctr; replay_bitmap = zero_bitmap })
            ctr
  unfolding record_counter
  branch_first off = ground arith

  branch_ahead :
      s.recv_started ≡ true
      → s.recv_max_counter < ctr
      → record_counter s ctr
        ≡ mark
            (record s {
              recv_max_counter = ctr;
              replay_bitmap =
                  if leb replay_window (ctr - s.recv_max_counter)
                  then zero_bitmap
                  else clear_range (ctr - s.recv_max_counter) 1 s.recv_max_counter s.replay_bitmap;
            })
            ctr
  unfolding record_counter
  branch_ahead on ahead = ground arith

  branch_within :
      s.recv_started ≡ true
      → ctr ≤ s.recv_max_counter
      → s.recv_max_counter < ctr + replay_window
      → record_counter s ctr ≡ mark s ctr
  unfolding record_counter
  branch_within on le near = ground arith

-- While the window tracks the history, recording a counter that the specification allows succeeds
-- and extends the history by it.
pub record_counter-Tracks :
    (s : SecureFrameCipher) (hs : List ℕ) (ctr : ℕ)
    → Tracks s hs
    → allowed hs ctr ≡ true
    → ((record_counter s ctr).0 ≡ true) × Tracks (record_counter s ctr).1 (ctr ∷ hs)
record_counter-Tracks s [] ctr t ok = elim (Bool-cases s.recv_started) [
  | inl on ↦ absurd (t.started on refl)
  | inr off ↦ rw (branch_first s ctr off) (
      mark_lem
        (record s { recv_started = true; recv_max_counter = ctr; replay_bitmap = zero_bitmap }) []
        ctr zero_bitmap-IsBitmap refl (ground arith)
        (λ q h k. test_pos-zero_bitmap (q % replay_window)) refl (omega arith) (omega arith))
]
record_counter-Tracks s (h ∷ hs) ctr t ok = elim (Bool-cases s.recv_started) [
  | inl on ↦ elim (dec_le ctr s.recv_max_counter) [
    | yes le ↦
        let near : s.recv_max_counter < ctr + replay_window = ground (arith, t.top on) in
        rw (branch_within s ctr on le near) (within s (h ∷ hs) ctr t on le near (ground arith))
    | no gt ↦
        rw (branch_ahead s ctr on (omega arith))
          (elim (Bool-cases (leb replay_window (ctr - s.recv_max_counter))) [
            | inl far ↦ rw far (far_ahead s (h ∷ hs) ctr t on (omega arith) (ground arith))
            | inr near ↦ rw near (just_ahead s (h ∷ hs) ctr t on (omega arith) (ground arith))
          ])
  ]
  | inr off ↦ cc (t.fresh off)
]
