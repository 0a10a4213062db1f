-- ===== src/Protocol/Names.antt =====
-- The checks of names and passwords of common/protocol.h. A string is its list of bytes.
use vlan_connect.Prelude.{
  ltb, leb, if◌then◌else◌, length, All, ℕ, ◌≤◌, ◌≡◌, refl, ◌↔◌, ◌⊎◌, Bool, true, not, ◌&&◌, ◌||◌,
  List, [], ◌∷◌, arith,
}
use vlan_connect.Protocol.Constants.{
  max_room_name_len, min_player_name_len, max_player_name_len, min_room_password_len,
  max_room_password_len, max_players,
}

pub is_ascii_alpha_num : ℕ → Bool
is_ascii_alpha_num c =
    (leb b'0' c && leb c b'9') || (leb b'A' c && leb c b'Z') || (leb b'a' c && leb c b'z')

pub is_ascii_alpha_num_string : List ℕ → Bool
is_ascii_alpha_num_string [] = true
is_ascii_alpha_num_string (c ∷ s) = is_ascii_alpha_num c && is_ascii_alpha_num_string s

unfoldable pub is_valid_player_name : List ℕ → Bool
is_valid_player_name s =
    leb min_player_name_len (length s)
    && leb (length s) max_player_name_len
    && is_ascii_alpha_num_string s

unfoldable pub is_valid_room_name : List ℕ → Bool
is_valid_room_name s = not (leb (length s) 0) && leb (length s) max_room_name_len

pub is_valid_room_password : List ℕ → Bool
is_valid_room_password s =
    leb min_room_password_len (length s)
    && leb (length s) max_room_password_len
    && is_ascii_alpha_num_string s

pub normalize_max_players : ℕ → ℕ
normalize_max_players value =
    if ltb value 2 then 2 else if ltb max_players value then max_players else value

-- A character of the three ASCII ranges, as the protocol documents it.
abbrev pub IsAlphaNum : ℕ → Type 0
IsAlphaNum c = ((b'0' ≤ c) × (c ≤ b'9')) ⊎ (((b'A' ≤ c) × (c ≤ b'Z')) ⊎ ((b'a' ≤ c) × (c ≤ b'z')))

pub is_ascii_alpha_num_iff : (c : ℕ) → (is_ascii_alpha_num c ≡ true) ↔ IsAlphaNum c
unfolding is_ascii_alpha_num
is_ascii_alpha_num_iff c = (λ h. ground arith, λ h. ground arith)

pub is_ascii_alpha_num_string_sound :
    (s : List ℕ) → is_ascii_alpha_num_string s ≡ true → All IsAlphaNum s
unfolding is_ascii_alpha_num_string
is_ascii_alpha_num_string_sound [] h = tt
is_ascii_alpha_num_string_sound (c ∷ s) h =
    ((is_ascii_alpha_num_iff c).0 (ground arith), is_ascii_alpha_num_string_sound s (ground arith))

pub is_ascii_alpha_num_string_complete :
    (s : List ℕ) → All IsAlphaNum s → is_ascii_alpha_num_string s ≡ true
unfolding is_ascii_alpha_num_string
is_ascii_alpha_num_string_complete [] h = refl
is_ascii_alpha_num_string_complete (c ∷ s) h =
    ground (arith, (is_ascii_alpha_num_iff c).1 h.0, is_ascii_alpha_num_string_complete s h.1)

-- A player name is accepted exactly when it has 5 to 63 bytes, each an ASCII letter or digit.
pub is_valid_player_name_iff :
    (s : List ℕ)
    → (is_valid_player_name s ≡ true) ↔ ((5 ≤ length s) × (length s ≤ 63) × All IsAlphaNum s)
unfolding is_valid_player_name
is_valid_player_name_iff s = (
  λ h. (ground arith, ground arith, is_ascii_alpha_num_string_sound s (ground arith)),
  λ h. ground (arith, is_ascii_alpha_num_string_complete s h.2),
)
