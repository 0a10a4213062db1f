-- ===== src/ClientMessage/Verdict.antt =====
-- What it takes for a chain of reads to accept a message.
use vlan_connect.Prelude.{
  if◌then◌else◌, ◌>>=◌, return, ℕ, ◌≡◌, refl, ap, ◌∙◌, Bool, true, false, Option, none, some, List,
  [], ◌∷◌,
}
use vlan_connect.ByteBuffer.{ByteBuffer, from_bytes, Read}
use vlan_connect.ByteBuffer.Parser.{Parse, p_at_end}
use vlan_connect.ByteBuffer.Refine.{view, Refines, p_ended}
use vlan_connect.ClientMessage.{verdict, check}

pub verdict-view : (r : Option (Bool × ByteBuffer)) → verdict r ≡ verdict (view r)
verdict-view none = refl
verdict-view (some (ok, b)) = refl

pub check-Refines :
    {r : Read Bool} {p : Parse Bool} → Refines r p → (xs : List ℕ) → check r xs ≡ verdict (p xs)
unfolding from_bytes
check-Refines {r} h xs = verdict-view (r (from_bytes xs)) ∙ ap verdict (h.run (from_bytes xs))

pub record Accepts (p : Parse Bool) (xs : List ℕ) : Type 0 where
  pub run : verdict (p xs) ≡ true

pub bind_inv :
    {A : Type 0} (m : Parse A) (f : A → Parse Bool) {xs : List ℕ}
    → Accepts (m >>= f) xs
    → (a : A) × (rest : List ℕ) × (m xs ≡ some (a, rest)) × Accepts (f a) rest
bind_inv {A} m f {xs} e = go (m xs) refl e.run
  where
    go :
        (r : Option (A × List ℕ))
        → m xs ≡ r
        → verdict (elim r [ none ↦ none | some (a, s') ↦ f a s' ]) ≡ true
        → (a : A) × (rest : List ℕ) × (m xs ≡ some (a, rest)) × Accepts (f a) rest
    go none same e = cc
    go (some (a, rest)) same e = (a, rest, same, record { run = e })

-- A guard that rejects did not fire.
pub else_inv :
    (c : Bool) {p : Parse Bool} {xs : List ℕ}
    → Accepts (if c then return false else p) xs
    → (c ≡ false) × Accepts p xs
else_inv true e = cc (e.run)
else_inv false e = (refl, e)

pub p_ended_inv : (xs : List ℕ) → Accepts p_ended xs → xs ≡ []
unfolding p_ended p_at_end
p_ended_inv [] e = refl
p_ended_inv (x ∷ xs) e = cc (e.run)
