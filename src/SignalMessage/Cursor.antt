-- ===== src/SignalMessage/Cursor.antt =====
-- MessageValidatorDetail::Cursor: reads that report failure and keep the first error.
use vlan_connect.Prelude.{
  ltb, ◌==◌, if◌then◌else◌, length, get_or, ℕ, zero, suc, ◌+◌, ◌-◌, ◌*◌, ◌^◌, Bool, true, false,
  not, ◌&&◌, ◌||◌, Option, none, some, List,
}
use vlan_connect.Protocol.Names.{is_ascii_alpha_num}
use vlan_connect.Protocol.Policy.{is_valid_room_mtu_value, is_valid_policy_values}
use vlan_connect.Protocol.Traffic.{be32}

pub data MessageValidationError : Type 0 where
  no_error truncated trailing_data invalid_boolean invalid_count : MessageValidationError
  invalid_string_length invalid_policy invalid_mtu invalid_version : MessageValidationError
  invalid_traffic_class invalid_value encrypted_frame_too_short : MessageValidationError

abbrev pub is_none : MessageValidationError → Bool
is_none no_error = true
is_none _ = false

pub record Cursor : Type 0 where
  pub bytes : List ℕ
  pub position : ℕ
  pub error : MessageValidationError
  pub error_offset : ℕ

abbrev pub new_cursor : List ℕ → Cursor
new_cursor bytes = record { bytes = bytes; position = 0; error = no_error; error_offset = 0 }

abbrev pub left : Cursor → ℕ
left c = length c.bytes - c.position

abbrev pub at : Cursor → ℕ → ℕ
at c i = get_or c.bytes (c.position + i) 0

unfoldable pub set_error : MessageValidationError → ℕ → Cursor → Cursor
set_error e offset c = if is_none c.error then record c { error = e; error_offset = offset } else c

-- A read of `n` bytes; `none` stands for `return false`.
abbrev pub Field : Type 0 → Type 0
Field A = Cursor → Option A × Cursor

unfoldable pub require_bytes : {A : Type 0} → ℕ → A → Field A
unfolding set_error
require_bytes n value c =
    if ltb (left c) n
    then (none, set_error truncated c.position c)
    else (some value, record c { position = c.position + n })

unfoldable pub field_u8 : Field ℕ
field_u8 c = require_bytes 1 (at c 0) c

unfoldable pub field_u16 : Field ℕ
field_u16 c = require_bytes 2 (at c 0 * 2 ^ 8 + at c 1) c

unfoldable pub field_u32 : Field ℕ
field_u32 c = require_bytes 4 (be32 (at c 0) (at c 1) (at c 2) (at c 3)) c

unfoldable pub skip_bytes : ℕ → Field Bool
skip_bytes n c = require_bytes n true c

-- The chains of `!cursor.read…() || …`: the first failure ends them.
abbrev pub go_on : {A B : Type 0} → Option A × Cursor → (A → Field B) → Option B × Cursor
go_on (none, c) g = (none, c)
go_on (some a, c) g = g a c

abbrev pub and_then : {A B : Type 0} → Field A → (A → Field B) → Field B
and_then f g c = go_on (f c) g

-- `setError(error, offset); return false;` under a condition, else `return true;`.
unfoldable pub reject_if : {A : Type 0} → Bool → MessageValidationError → ℕ → A → Field A
unfolding set_error
reject_if bad e offset value c = if bad then (none, set_error e offset c) else (some value, c)

unfoldable pub field_boolean : Field ℕ
field_boolean c = and_then field_u8 (λ v. reject_if (ltb 1 v) invalid_boolean c.position v) c

unfoldable pub field_mtu : Field ℕ
field_mtu c =
    and_then field_u16 (λ v. reject_if (not (is_valid_room_mtu_value v)) invalid_mtu c.position v) c

unfoldable pub field_policy : Field (ℕ × ℕ × ℕ)
field_policy c =
    and_then field_u8
      (λ t. and_then field_u8 (λ f.
        and_then field_u8 (λ p.
          reject_if (not (is_valid_policy_values t f p)) invalid_policy c.position (t, f, p))))
      c

-- The first byte of the string that is no letter or digit sets the error.
unfoldable pub check_letters : ℕ → ℕ → Cursor → Bool × Cursor
unfolding set_error
check_letters zero i c = (true, c)
check_letters (suc n) i c =
    let rest = check_letters n (suc i) c in
    if is_ascii_alpha_num (at c i)
    then rest
    else (false, set_error invalid_value (c.position + i) c)

unfoldable pub string_body : Bool → ℕ → Field Bool
unfolding set_error
string_body letters n c =
    if ltb (left c) n
    then (none, set_error truncated c.position c)
    else if letters && not (check_letters n 0 c).0
    then (none, (check_letters n 0 c).1)
    else (some true, record c { position = c.position + n })

unfoldable pub field_string : ℕ → ℕ → Bool → Field Bool
field_string low high letters c =
    and_then field_u16
      (λ n.
        and_then (reject_if (ltb n low || ltb high n) invalid_string_length c.position n)
          (λ n. string_body letters n))
      c

unfoldable pub finish_field : Field Bool
unfolding set_error
finish_field c =
    if not (is_none c.error)
    then (none, c)
    else if not (c.position == length c.bytes)
    then (none, set_error trailing_data c.position c)
    else (some true, c)
