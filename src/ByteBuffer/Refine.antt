-- ===== src/ByteBuffer/Refine.antt =====
-- The reads of the buffer refine the parsers of `Parser`, and chains of them do.
use vlan_connect.Prelude.{
  ltb, leb, if◌then◌else◌, Bool-cases, length, get_or, take, drop, length-drop, ◌>>=◌, ◌>>◌, return,
  ℕ, zero, suc, ◌+◌, ◌-◌, ◌*◌, ◌^◌, ◌≤◌, ◌≡◌, refl, sym, ap, ◌∙◌, inl, inr, Bool, true, false,
  Option, none, some, List, [], ◌∷◌, arith,
}
use vlan_connect.ByteBuffer.{
  ByteBuffer, remaining, at_end, Read, ensure_readable, read_u8, read_u16, read_u32, gather,
  read_u64, read_bytes, read_string,
}
use vlan_connect.Protocol.Traffic.{be32}
use vlan_connect.ByteBuffer.Parser.{Parse, p_u8, p_u16, p_u32, p_u64, p_bytes, p_string, p_at_end}

-- The bytes that are not read yet.
abbrev pub unread : ByteBuffer → List ℕ
unread b = drop b.read_pos b.bytes

abbrev pub view : {A : Type 0} → Option (A × ByteBuffer) → Option (A × List ℕ)
view none = none
view (some (a, b)) = some (a, unread b)

-- `m` on a buffer is `p` on the bytes that are left.
pub record Refines {A : Type 0} (m : Read A) (p : Parse A) : Type 0 where
  pub run : (b : ByteBuffer) → view (m b) ≡ p (unread b)

drop-add : (xs : List ℕ) (i n : ℕ) → drop (i + n) xs ≡ drop n (drop i xs)
drop-add xs zero n = ap (λ k. drop k xs) (omega arith)
drop-add [] (suc i) n = nil_case (suc i + n) n
  where
    nil_case : (k n : ℕ) → drop {A = ℕ} k [] ≡ drop n []
    nil_case zero zero = refl
    nil_case zero (suc n) = refl
    nil_case (suc k) zero = refl
    nil_case (suc k) (suc n) = refl
drop-add (x ∷ xs) (suc i) n = ap (λ k. drop k (x ∷ xs)) shift ∙ drop-add xs i n
  where
    shift : suc i + n ≡ suc (i + n)
    shift = omega arith

get_or-drop : (xs : List ℕ) (i k : ℕ) → get_or xs (i + k) 0 ≡ get_or (drop i xs) k 0
get_or-drop xs zero k = ap (λ j. get_or xs j 0) (omega arith)
get_or-drop [] (suc i) k = refl
get_or-drop (x ∷ xs) (suc i) k = ap (λ j. get_or (x ∷ xs) j 0) shift ∙ get_or-drop xs i k
  where
    shift : suc i + k ≡ suc (i + k)
    shift = omega arith

-- Every read leaves the position within the bytes.
length-unread : (b : ByteBuffer) → length (unread b) ≡ remaining b
unfolding remaining
length-unread b = length-drop b.read_pos b.bytes

-- A read of `n` bytes: it fails on the same inputs, and moves on by `n`.
consume-Refines :
    {A : Type 0} (n : ℕ) (value : ByteBuffer → A) (p : List ℕ → A)
    → ((b : ByteBuffer) → n ≤ length (unread b) → value b ≡ p (unread b))
    → (b : ByteBuffer)
    → view ((ensure_readable n >> λ b. some (value b, record b { read_pos = b.read_pos + n })) b)
      ≡ (if ltb (length (unread b)) n then none else some (p (unread b), drop n (unread b)))
unfolding ensure_readable
consume-Refines {A} n value p h b = elim (Bool-cases (ltb (length (unread b)) n)) [
  | inl short ↦ rw (same ∙ short, ◌>>◌, ensure_readable) (rw short)
  | inr enough ↦ rw (same ∙ enough, ◌>>◌, ensure_readable) (rw enough (done (ground arith)))
]
  where
    same : ltb (length b.bytes - b.read_pos) n ≡ ltb (length (unread b)) n
    same = ap (λ k. ltb k n) (sym (length-unread b))

    done :
        n ≤ length (unread b)
        → ◌≡◌ {A = Option (A × List ℕ)}
            (some (value b, drop (b.read_pos + n) b.bytes))
            (some (p (unread b), drop n (unread b)))
    done e = cc (h b e, drop-add b.bytes b.read_pos n)

pub read_bytes-Refines : (n : ℕ) → Refines (read_bytes n) (p_bytes n)
unfolding read_bytes p_bytes
read_bytes-Refines n = record { run = consume-Refines n _ (take n) (λ b h. refl) }

p_u8-if :
    (xs : List ℕ) → p_u8 xs ≡ (if ltb (length xs) 1 then none else some (get_or xs 0 0, drop 1 xs))
unfolding p_u8
p_u8-if [] = refl
p_u8-if (a ∷ xs) = ground arith

pub read_u8-Refines : Refines read_u8 p_u8
unfolding read_u8
read_u8-Refines = record {
  run = λ b.
      consume-Refines 1 _ (λ xs. get_or xs 0 0) (λ b h. get_or-drop b.bytes b.read_pos 0) b
      ∙ sym (p_u8-if (unread b));
}

be16_if :
    (xs : List ℕ)
    → p_u16 xs ≡ (
        if ltb (length xs) 2 then none else some (get_or xs 0 0 * 2 ^ 8 + get_or xs 1 0, drop 2 xs))
unfolding p_u16
be16_if [] = refl
be16_if (a ∷ []) = refl
be16_if (a ∷ b ∷ xs) = ground arith

pub read_u16-Refines : Refines read_u16 p_u16
unfolding read_u16
read_u16-Refines = record {
  run = λ b.
      consume-Refines 2 _ (λ xs. get_or xs 0 0 * 2 ^ 8 + get_or xs 1 0)
        (λ b h. cc (get_or-drop b.bytes b.read_pos 0, get_or-drop b.bytes b.read_pos 1)) b
      ∙ sym (be16_if (unread b));
}

be32_of : List ℕ → ℕ
be32_of xs = be32 (get_or xs 0 0) (get_or xs 1 0) (get_or xs 2 0) (get_or xs 3 0)

p_u32_if :
    (xs : List ℕ) → p_u32 xs ≡ (if ltb (length xs) 4 then none else some (be32_of xs, drop 4 xs))
unfolding p_u32 be32_of
p_u32_if [] = refl
p_u32_if (a ∷ []) = refl
p_u32_if (a ∷ b ∷ []) = refl
p_u32_if (a ∷ b ∷ c ∷ []) = refl
p_u32_if (a ∷ b ∷ c ∷ d ∷ xs) = ground arith

pub read_u32-Refines : Refines read_u32 p_u32
unfolding read_u32 be32_of
read_u32-Refines = record {
  run = λ b.
      consume-Refines 4 _ be32_of
        (λ b h. cc (
          get_or-drop b.bytes b.read_pos 0,
          get_or-drop b.bytes b.read_pos 1,
          get_or-drop b.bytes b.read_pos 2,
          get_or-drop b.bytes b.read_pos 3,
        ))
        b
      ∙ sym (p_u32_if (unread b));
}

be64_of : List ℕ → ℕ
be64_of xs =
    be32 (get_or xs 0 0) (get_or xs 1 0) (get_or xs 2 0) (get_or xs 3 0) * 2 ^ 32
    + be32 (get_or xs 4 0) (get_or xs 5 0) (get_or xs 6 0) (get_or xs 7 0)

p_u64_if :
    (xs : List ℕ) → p_u64 xs ≡ (if ltb (length xs) 8 then none else some (be64_of xs, drop 8 xs))
unfolding p_u64 be64_of
p_u64_if [] = refl
p_u64_if (a ∷ []) = refl
p_u64_if (a ∷ b ∷ []) = refl
p_u64_if (a ∷ b ∷ c ∷ []) = refl
p_u64_if (a ∷ b ∷ c ∷ d ∷ []) = refl
p_u64_if (a ∷ b ∷ c ∷ d ∷ e ∷ []) = refl
p_u64_if (a ∷ b ∷ c ∷ d ∷ e ∷ f ∷ []) = refl
p_u64_if (a ∷ b ∷ c ∷ d ∷ e ∷ f ∷ g ∷ []) = refl
p_u64_if (a ∷ b ∷ c ∷ d ∷ e ∷ f ∷ g ∷ h ∷ xs) = ground arith

pub read_u64-Refines : Refines read_u64 p_u64
unfolding read_u64 be64_of
read_u64-Refines = record {
  run = λ b. consume-Refines 8 _ be64_of (λ b h. gathered b) b ∙ sym (p_u64_if (unread b));
}
  where
    at : (b : ByteBuffer) (k : ℕ) → get_or b.bytes (b.read_pos + k) 0 ≡ get_or (unread b) k 0
    at b k = get_or-drop b.bytes b.read_pos k

    gathered : (b : ByteBuffer) → gather b 8 0 0 ≡ be64_of (unread b)
    gathered b = omega (arith, at b 0, at b 1, at b 2, at b 3, at b 4, at b 5, at b 6, at b 7)

pub at_end-p_at_end : (b : ByteBuffer) → at_end b ≡ p_at_end (unread b)
unfolding at_end p_at_end
at_end-p_at_end b = go (unread b) (length-drop b.read_pos b.bytes)
  where
    go :
        (xs : List ℕ)
        → length xs ≡ length b.bytes - b.read_pos
        → leb (length b.bytes) b.read_pos ≡ p_at_end xs
    go [] e = ground arith
    go (x ∷ xs) e = ground arith

-- `atEnd()` in the middle of a chain.
unfoldable pub ended : Read Bool
ended b = some (at_end b, b)

unfoldable pub p_ended : Parse Bool
p_ended xs = some (p_at_end xs, xs)

pub ended-Refines : Refines ended p_ended
unfolding ended p_ended
ended-Refines = record { run = λ b. ap (λ r. some (r, unread b)) (at_end-p_at_end b) }

-- Chains of reads refine chains of parsers.
pub return-Refines : {A : Type 0} (a : A) → Refines (return a) (return a)
return-Refines a = record { run = λ b. refl }

pub >>=-Refines :
    {A B : Type 0} {m : Read A} {p : Parse A} {f : A → Read B} {q : A → Parse B}
    → Refines m p
    → ((a : A) → Refines (f a) (q a))
    → Refines (m >>= f) (p >>= q)
>>=-Refines {A} {B} {m} {p} {f} {q} h k = record { run = λ b. go b (m b) (h.run b) }
  where
    go :
        (b : ByteBuffer) (r : Option (A × ByteBuffer))
        → view r ≡ p (unread b)
        → view (elim r [ none ↦ none | some (a, b') ↦ f a b' ])
          ≡ elim (p (unread b)) [ none ↦ none | some (a, xs) ↦ q a xs ]
    go b none e = rw (← e)
    go b (some (a, b')) e = rw (← e) ((k a).run b')

pub if-Refines :
    {A : Type 0} (c : Bool) (m m' : Read A) (p p' : Parse A)
    → Refines m p
    → Refines m' p'
    → Refines (if c then m else m') (if c then p else p')
if-Refines true m m' p p' h h' = h
if-Refines false m m' p p' h h' = h'

pub read_string-Refines : Refines read_string p_string
unfolding read_string p_string
read_string-Refines = record { run = (>>=-Refines read_u16-Refines read_bytes-Refines).run }

pub ruleset reads = (
  >>=-Refines, if-Refines, return-Refines, read_u8-Refines, read_u16-Refines, read_u32-Refines,
  read_u64-Refines, read_string-Refines, read_bytes-Refines, ended-Refines,
)
