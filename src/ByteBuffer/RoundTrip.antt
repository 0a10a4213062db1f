-- ===== src/ByteBuffer/RoundTrip.antt =====
-- What is written is read back, and what is read was written.
use mathlib.Core.List.{append-nil}
use vlan_connect.Prelude.{
  ltb, Bool-cases, length, take, drop, All, length-append, take-append, drop-append,
  take-append-drop, length-take, ◌>>=◌, return, ℕ, zero, suc, ◌+◌, ◌*◌, ◌/◌, ◌%◌, ◌^◌, ◌<◌, ◌≡◌,
  refl, sym, ap, ◌∙◌, subst, inl, inr, Bool, true, ◌&&◌, some, List, [], ◌∷◌, ◌++◌, arith,
}
use vlan_connect.ByteBuffer.{
  ByteBuffer, empty, u8_bytes, u16_bytes, u32_bytes, u64_bytes, string_bytes, write_u8, write_u16,
  write_u32, write_u64, write_string, write_bytes, Read, read_u8, read_u16, read_u32, read_u64,
  read_bytes, read_string,
}
use vlan_connect.ByteBuffer.Refine.{view, Refines, reads}
use vlan_connect.ByteBuffer.Parser.{Parse, p_u8, p_u16, p_u32, p_u64, p_bytes, p_string}

-- A byte, and a list of bytes.
abbrev pub IsByte : ℕ → Type 0
IsByte a = a < 256

abbrev pub IsBytes : List ℕ → Type 0
IsBytes xs = All IsByte xs

abbrev pub all_bytes : List ℕ → Bool
all_bytes [] = true
all_bytes (b ∷ bs) = ltb b 256 && all_bytes bs

pub all_bytes-IsBytes : (xs : List ℕ) → all_bytes xs ≡ true → IsBytes xs
all_bytes-IsBytes [] h = tt
all_bytes-IsBytes (b ∷ bs) h = (ground arith, all_bytes-IsBytes bs (ground arith))

pub p_u8_of : (v : ℕ) (rest : List ℕ) → p_u8 (u8_bytes v ++ rest) ≡ some (v, rest)
unfolding p_u8
p_u8_of v rest = refl

pub p_u16_of : (v : ℕ) (rest : List ℕ) → v < 2 ^ 16 → p_u16 (u16_bytes v ++ rest) ≡ some (v, rest)
unfolding p_u16
p_u16_of v rest h = ground arith

pub p_u32_of : (v : ℕ) (rest : List ℕ) → v < 2 ^ 32 → p_u32 (u32_bytes v ++ rest) ≡ some (v, rest)
unfolding p_u32
p_u32_of v rest h = ground arith

pub p_u64_of : (v : ℕ) (rest : List ℕ) → v < 2 ^ 64 → p_u64 (u64_bytes v ++ rest) ≡ some (v, rest)
unfolding p_u64
p_u64_of v rest h = ground arith

pub p_bytes_of : (d rest : List ℕ) (n : ℕ) → length d ≡ n → p_bytes n (d ++ rest) ≡ some (d, rest)
unfolding p_bytes
p_bytes_of d rest n e =
    rw (← e) (ground (arith, length-append d rest, take-append d rest, drop-append d rest))

pub p_bytes_all : (d : List ℕ) (n : ℕ) → length d ≡ n → p_bytes n d ≡ some (d, [])
p_bytes_all d n e = ap (p_bytes n) (sym (append-nil d)) ∙ p_bytes_of d [] n e

pub p_string_of :
    (s rest : List ℕ) → length s < 2 ^ 16 → p_string (string_bytes s ++ rest) ≡ some (s, rest)
unfolding p_string
p_string_of s rest h =
    p_bytes_of s rest (length s % 2 ^ 16 / 2 ^ 8 % 256 * 2 ^ 8 + length s % 2 ^ 16 % 256)
      (omega arith)

-- Inversion: a parser that succeeds on bytes has read the encoding of its result.
pub p_u16_inv :
    (xs : List ℕ) (v : ℕ) (rest : List ℕ)
    → IsBytes xs
    → p_u16 xs ≡ some (v, rest)
    → (xs ≡ u16_bytes v ++ rest) × (v < 2 ^ 16) × IsBytes rest
unfolding p_u16
p_u16_inv [] v rest h e = cc
p_u16_inv (a ∷ []) v rest h e = cc
p_u16_inv (a ∷ b ∷ xs) v rest h e = (ground arith, ground arith, ground arith)

pub p_u8_inv :
    (xs : List ℕ) (v : ℕ) (rest : List ℕ)
    → IsBytes xs
    → p_u8 xs ≡ some (v, rest)
    → (xs ≡ u8_bytes v ++ rest) × (v < 256) × IsBytes rest
unfolding p_u8
p_u8_inv [] v rest h e = cc
p_u8_inv (a ∷ xs) v rest h e = (ground arith, ground arith, ground arith)

pub p_u32_inv :
    (xs : List ℕ) (v : ℕ) (rest : List ℕ)
    → IsBytes xs
    → p_u32 xs ≡ some (v, rest)
    → (xs ≡ u32_bytes v ++ rest) × (v < 2 ^ 32) × IsBytes rest
unfolding p_u32
p_u32_inv [] v rest h e = cc
p_u32_inv (a ∷ []) v rest h e = cc
p_u32_inv (a ∷ b ∷ []) v rest h e = cc
p_u32_inv (a ∷ b ∷ c ∷ []) v rest h e = cc
p_u32_inv (a ∷ b ∷ c ∷ d ∷ xs) v rest h e = (ground arith, ground arith, ground arith)

All-drop : (n : ℕ) (xs : List ℕ) → IsBytes xs → IsBytes (drop n xs)
All-drop zero xs h = h
All-drop (suc n) [] h = h
All-drop (suc n) (x ∷ xs) h = All-drop n xs h.1

pub p_bytes_inv :
    (xs : List ℕ) (n : ℕ) (d rest : List ℕ)
    → IsBytes xs
    → p_bytes n xs ≡ some (d, rest)
    → (xs ≡ d ++ rest) × (length d ≡ n) × IsBytes rest
unfolding p_bytes
p_bytes_inv xs n d rest h e = elim (Bool-cases (ltb (length xs) n)) [
  | inl short ↦ absurd (ground arith)
  | inr enough ↦
      let taken : take n xs ≡ d = ground arith in
      let left : drop n xs ≡ rest = ground arith in
      (
        sym (take-append-drop n xs) ∙ rw (taken, left),
        rw (← taken) (length-take n xs (ground arith)),
        subst IsBytes left (All-drop n xs h),
      )
]

pub p_string_inv :
    (xs : List ℕ) (s rest : List ℕ)
    → IsBytes xs
    → p_string xs ≡ some (s, rest)
    → (xs ≡ string_bytes s ++ rest) × (length s < 2 ^ 16) × IsBytes rest
unfolding p_string
p_string_inv [] s rest h e = cc
p_string_inv (a ∷ []) s rest h e = cc
p_string_inv (a ∷ b ∷ xs) s rest h e =
    let (split, len, ok) = p_bytes_inv xs (a * 2 ^ 8 + b) s rest h.1.1 e in
    (ground arith, ground arith, ok)

-- One value of every kind, written in turn and read in turn.
pub write_all : ℕ → ℕ → ℕ → ℕ → List ℕ → List ℕ → ByteBuffer
write_all a b c d s t =
    write_bytes t (write_string s (write_u64 d (write_u32 c (write_u16 b (write_u8 a empty)))))

pub read_all : ℕ → Read (ℕ × ℕ × ℕ × ℕ × List ℕ × List ℕ)
read_all n = do
  a ← read_u8
  b ← read_u16
  c ← read_u32
  d ← read_u64
  s ← read_string
  t ← read_bytes n
  return (a, b, c, d, s, t)

parse_all : ℕ → Parse (ℕ × ℕ × ℕ × ℕ × List ℕ × List ℕ)
parse_all n = do
  a ← p_u8
  b ← p_u16
  c ← p_u32
  d ← p_u64
  s ← p_string
  t ← p_bytes n
  return (a, b, c, d, s, t)

read_all-Refines : (n : ℕ) → Refines (read_all n) (parse_all n)
unfolding read_all parse_all
read_all-Refines n = search reads depth 20

parse_all_of :
    (a b c d : ℕ) (s t rest : List ℕ)
    → b < 2 ^ 16
    → c < 2 ^ 32
    → d < 2 ^ 64
    → length s < 2 ^ 16
    → parse_all (length t) (
        u8_bytes a
        ++ (u16_bytes b ++ (u32_bytes c ++ (u64_bytes d ++ (string_bytes s ++ (t ++ rest))))))
      ≡ some ((a, b, c, d, s, t), rest)
unfolding parse_all
parse_all_of a b c d s t rest hb hc hd hs = rw (
  parse_all,
  ◌>>=◌,
  p_u8_of a _,
  p_u16_of b _ hb,
  p_u32_of c _ hc,
  p_u64_of d _ hd,
  p_string_of s _ hs,
  p_bytes_of t rest (length t) refl,
)

-- Whatever is written is read back, value by value, and nothing is left over: bytes, 16, 32 and
-- 64 bit words in range, a string shorter than 2 ^ 16 and a block of bytes of known length.
pub read_all-write_all :
    (a b c d : ℕ) (s t : List ℕ)
    → b < 2 ^ 16
    → c < 2 ^ 32
    → d < 2 ^ 64
    → length s < 2 ^ 16
    → view (read_all (length t) (write_all a b c d s t)) ≡ some ((a, b, c, d, s, t), [])
unfolding write_all write_u8 write_u16 write_u32 write_u64 write_string write_bytes empty
read_all-write_all a b c d s t hb hc hd hs =
    (read_all-Refines (length t)).run _
    ∙ ap
        (λ r.
          parse_all (length t) (
            u8_bytes a ++ (u16_bytes b ++ (u32_bytes c ++ (u64_bytes d ++ (string_bytes s ++ r))))))
        (sym (append-nil t))
    ∙ parse_all_of a b c d s t [] hb hc hd hs
