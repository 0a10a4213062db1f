-- ===== src/AuthFile.antt =====
-- parseAuthPasswordBytes of server/src/auth_file.h: the password in the file of the server.
-- A `char` is its byte. The two null checks of the out parameters are about the caller.
mod Tests
use vlan_connect.Prelude.{
  ltb, ◌==◌, if◌then◌else◌, length, ℕ, ◌≤◌, ◌≡◌, refl, ap, ◌∙◌, subst, ◌↔◌, Bool, true, false, not,
  ◌&&◌, ◌||◌, List, [], ◌∷◌, ◌++◌, arith,
}

pub data AuthFileError : Type 0 where
  contains_nul extra_line blank_password bad_length : AuthFileError

pub data Parsed : Type 0 where
  password : List ℕ → Parsed
  error : AuthFileError → Parsed

abbrev pub contains : ℕ → List ℕ → Bool
contains c [] = false
contains c (b ∷ bs) = b == c || contains c bs

abbrev pub is_line_end : ℕ → Bool
is_line_end c = c == 13 || c == 10

-- The bytes before `lineEnd`, and those from it on.
abbrev pub first_line : List ℕ → List ℕ
first_line [] = []
first_line (b ∷ bs) = let later = first_line bs in if is_line_end b then [] else b ∷ later

abbrev pub after_line : List ℕ → List ℕ
after_line [] = []
after_line (b ∷ bs) = let later = after_line bs in if is_line_end b then b ∷ bs else later

abbrev pub all_line_ends : List ℕ → Bool
all_line_ends [] = true
all_line_ends (b ∷ bs) = is_line_end b && all_line_ends bs

abbrev pub is_blank : ℕ → Bool
is_blank c = c == 32 || c == 9 || c == 11 || c == 12

abbrev pub all_whitespace : List ℕ → Bool
all_whitespace [] = true
all_whitespace (b ∷ bs) = is_blank b && all_whitespace bs

pub parse_auth_password_bytes : List ℕ → Parsed
parse_auth_password_bytes bytes =
    if contains 0 bytes
    then error contains_nul
    else if not (all_line_ends (after_line bytes))
    then error extra_line
    else if all_whitespace (first_line bytes)
    then error blank_password
    else if ltb (length (first_line bytes)) 8 || ltb 256 (length (first_line bytes))
    then error bad_length
    else password (first_line bytes)

-- A usable password: 8 to 256 bytes on one line, none of them NUL, and not only blanks.
pub record IsPassword (p : List ℕ) : Type 0 where
  pub no_nul : contains 0 p ≡ false
  pub one_line : first_line p ≡ p
  pub not_blank : all_whitespace p ≡ false
  pub long : (8 ≤ length p) × (length p ≤ 256)

line_split : (bs : List ℕ) → bs ≡ first_line bs ++ after_line bs
line_split [] = refl
line_split (b ∷ bs) = ground (arith, line_split bs)

contains_first : (bs : List ℕ) → contains 0 bs ≡ false → contains 0 (first_line bs) ≡ false
contains_first [] h = refl
contains_first (b ∷ bs) h = ground (arith, contains_first bs)

first_line_twice : (bs : List ℕ) → first_line (first_line bs) ≡ first_line bs
first_line_twice [] = refl
first_line_twice (b ∷ bs) = ground (arith, first_line_twice bs)

ends_split :
    (ends : List ℕ)
    → all_line_ends ends ≡ true
    → (first_line ends ≡ []) × (after_line ends ≡ ends) × (contains 0 ends ≡ false)
ends_split [] h = (refl, refl, refl)
ends_split (b ∷ bs) h =
    (ground arith, ground arith, ground (arith, (ends_split bs (ground arith)).2))

line_append :
    (p ends : List ℕ)
    → first_line p ≡ p
    → contains 0 p ≡ false
    → all_line_ends ends ≡ true
    → (first_line (p ++ ends) ≡ p)
      × (after_line (p ++ ends) ≡ ends)
      × (contains 0 (p ++ ends) ≡ false)
line_append [] ends line clean h = ends_split ends h
line_append (b ∷ bs) ends line clean h =
    let rest = line_append bs ends (ground arith) (ground arith) h in
    (ground (arith, rest), ground (arith, rest), ground (arith, rest))

-- The file is accepted exactly when it is a usable password with nothing but line ends behind it,
-- and the password is the one that is returned.
pub parse_auth_password_bytes_iff :
    (bytes p : List ℕ)
    → (parse_auth_password_bytes bytes ≡ password p)
      ↔ (IsPassword p × ((ends : List ℕ) × (bytes ≡ p ++ ends) × (all_line_ends ends ≡ true)))
unfolding parse_auth_password_bytes
parse_auth_password_bytes_iff bytes p = (
  (λ e.
      let same : first_line bytes ≡ p = ground arith in
      (
        subst IsPassword same (record {
          no_nul = contains_first bytes (ground arith);
          one_line = first_line_twice bytes;
          not_blank = ground arith;
          long = (ground arith, ground arith);
        }),
        (after_line bytes, line_split bytes ∙ ap (λ s. s ++ after_line bytes) same, ground arith),
      )),
  (λ (good, (ends, split, tail)).
      let parts = line_append p ends good.one_line good.no_nul tail in
      rw (split, parts) (ground (arith, tail, good.not_blank, good.long))),
)
