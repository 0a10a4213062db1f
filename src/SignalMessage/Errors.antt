-- ===== src/SignalMessage/Errors.antt =====
-- A check that fails names an error, at an offset within the message.
use vlan_connect.Prelude.{
  ltb, ◌==◌, if◌then◌else◌, length, ℕ, ◌+◌, ◌-◌, ◌≤◌, ◌≡◌, refl, ap, Bool, true, false, not, Option,
  none, some, List, arith,
}
use vlan_connect.SignalMessage.Cursor.{
  MessageValidationError, truncated, trailing_data, invalid_traffic_class, invalid_value, is_none,
  Cursor, new_cursor, left, set_error, Field, require_bytes, field_u8, field_u32, skip_bytes, go_on,
  and_then, reject_if, finish_field,
}
use vlan_connect.SignalMessage.Checks.{relay_data}

-- A cursor without an error, that has read at least `low` of its bytes.
pub record IsReading (bytes : List ℕ) (low : ℕ) (c : Cursor) : Type 0 where
  pub same : c.bytes ≡ bytes
  pub clean : is_none c.error ≡ true
  pub past : low ≤ c.position
  pub within : c.position ≤ length bytes

-- What comes out of a read: a cursor that goes on, or the error and where it is.
abbrev pub IsOutcome : {A : Type 0} → List ℕ → ℕ → Option A × Cursor → Type 0
IsOutcome bytes low (some a, c) = IsReading bytes low c
IsOutcome bytes low (none, c) = (is_none c.error ≡ false) × (c.error_offset ≤ length bytes)

abbrev pub Sound : {A : Type 0} → List ℕ → ℕ → ℕ → Field A → Type 0
Sound bytes low high f = (c : Cursor) → IsReading bytes low c → IsOutcome bytes high (f c)

and_then-Sound :
    {A B : Type 0} (bytes : List ℕ) (low mid high : ℕ) (f : Field A) (g : A → Field B)
    → Sound bytes low mid f
    → ((a : A) → Sound bytes mid high (g a))
    → Sound bytes low high (and_then f g)
and_then-Sound {A} {B} bytes low mid high f g hf hg c v = go (f c) (hf c v)
  where
    go : (r : Option A × Cursor) → IsOutcome bytes mid r → IsOutcome bytes high (go_on r g)
    go (none, c) o = o
    go (some a, c) o = hg a c o

if-IsOutcome :
    {A : Type 0} (bytes : List ℕ) (high : ℕ) (bad : Bool) (x y : Option A × Cursor)
    → (bad ≡ true → IsOutcome bytes high x)
    → (bad ≡ false → IsOutcome bytes high y)
    → IsOutcome bytes high (if bad then x else y)
if-IsOutcome bytes high true x y hx hy = hx refl
if-IsOutcome bytes high false x y hx hy = hy refl

set_error-IsOutcome :
    (bytes : List ℕ) (low offset : ℕ) (e : MessageValidationError) (c : Cursor)
    → IsReading bytes low c
    → is_none e ≡ false
    → offset ≤ length bytes
    → (is_none (set_error e offset c).error ≡ false)
      × ((set_error e offset c).error_offset ≤ length bytes)
unfolding set_error
set_error-IsOutcome bytes low offset e c v named fits = ground (arith, v.clean)

require_bytes-Sound :
    {A : Type 0} (bytes : List ℕ) (low n : ℕ) (value : A)
    → Sound bytes low (low + n) (require_bytes n value)
unfolding require_bytes
require_bytes-Sound bytes low n value c v =
    if-IsOutcome bytes (low + n) (ltb (left c) n) _ _
      (λ short. set_error-IsOutcome bytes low c.position truncated c v refl v.within)
      (λ enough. record {
        same = v.same;
        clean = v.clean;
        past = omega (arith, v.past);
        within = inside (ap length v.same) (ground arith);
      })
  where
    inside :
        length c.bytes ≡ length bytes
        → n ≤ length c.bytes - c.position
        → c.position + n ≤ length bytes
    inside e h = omega (arith, v.within)

reject_if-Sound :
    {A : Type 0} (bytes : List ℕ) (low : ℕ) (bad : Bool) (e : MessageValidationError) (offset : ℕ)
    (value : A)
    → is_none e ≡ false
    → offset ≤ low
    → Sound bytes low low (reject_if bad e offset value)
unfolding reject_if
reject_if-Sound bytes low bad e offset value named fits c v =
    if-IsOutcome bytes low bad _ _
      (λ wrong. set_error-IsOutcome bytes low offset e c v named (omega (arith, v.past, v.within)))
      (λ right. v)

finish_field-Sound : (bytes : List ℕ) (low : ℕ) → Sound bytes low (length bytes) finish_field
unfolding finish_field
finish_field-Sound bytes low c v =
    if-IsOutcome bytes (length bytes) (not (is_none c.error)) _ _ (λ bad. cc (bad, v.clean))
      (λ good.
        if-IsOutcome bytes (length bytes) (not (c.position == length c.bytes)) _ _
          (λ trailing. set_error-IsOutcome bytes low c.position trailing_data c v refl v.within)
          (λ whole. record {
            same = v.same;
            clean = v.clean;
            past = at_end (ap length v.same) (ground arith);
            within = v.within;
          }))
  where
    at_end : length c.bytes ≡ length bytes → c.position ≡ length c.bytes → length bytes ≤ c.position
    at_end e h = omega arith

field_u32-Sound : (bytes : List ℕ) (low : ℕ) → Sound bytes low (low + 4) field_u32
unfolding field_u32
field_u32-Sound bytes low c v = require_bytes-Sound bytes low 4 _ c v

field_u8-Sound : (bytes : List ℕ) (low : ℕ) → Sound bytes low (low + 1) field_u8
unfolding field_u8
field_u8-Sound bytes low c v = require_bytes-Sound bytes low 1 _ c v

skip_bytes-Sound : (bytes : List ℕ) (low n : ℕ) → Sound bytes low (low + n) (skip_bytes n)
unfolding skip_bytes
skip_bytes-Sound bytes low n c v = require_bytes-Sound bytes low n true c v

relay_data-Sound : (bytes : List ℕ) → Sound bytes 0 (length bytes) relay_data
unfolding relay_data
relay_data-Sound bytes =
    and_then-Sound bytes 0 4 (length bytes) _ _ (field_u32-Sound bytes 0) (λ source.
      and_then-Sound bytes 4 8 (length bytes) _ _ (field_u32-Sound bytes 4) (λ destination.
        and_then-Sound bytes 8 9 (length bytes) _ _ (field_u8-Sound bytes 8) (λ class.
          and_then-Sound bytes 9 9 (length bytes) _ _
            (reject_if-Sound bytes 9 _ invalid_value 0 true refl (omega arith))
            (λ ok.
              and_then-Sound bytes 9 9 (length bytes) _ _
                (reject_if-Sound bytes 9 _ invalid_traffic_class 8 true refl (omega arith))
                (λ ok c v.
                  and_then-Sound bytes 9 (9 + left c) (length bytes) _ _
                    (skip_bytes-Sound bytes 9 (left c))
                    (λ ok. finish_field-Sound bytes (9 + left c)) c v)))))

-- The check of relay data either accepts the whole message, at the end of it and without an error,
-- or names an error at an offset that is not past its end.
pub relay_data_lem :
    (bytes : List ℕ) → IsOutcome bytes (length bytes) (relay_data (new_cursor bytes))
relay_data_lem bytes =
    relay_data-Sound bytes (new_cursor bytes)
      (record { same = refl; clean = refl; past = omega arith; within = omega arith })
