-- ===== src/Prelude/State.antt =====
-- Code that threads a state and may fail. `none` is the failure: a thrown exception, an early
-- `return false`.
use mathlib.Core.Option.{Option, none, some}

abbrev pub St : Type 0 → Type 0 → Type 0
St S A = S → Option (A × S)

infixl 5 ◌>>=◌ ◌>>◌
abbrev pub ◌>>=◌ : {S A B : Type 0} → St S A → (A → St S B) → St S B
◌>>=◌ m f s = elim (m s) [ none ↦ none | some (a, s') ↦ f a s' ]

abbrev pub ◌>>◌ : {S A B : Type 0} → St S A → St S B → St S B
◌>>◌ m k s = elim (m s) [ none ↦ none | some (a, s') ↦ k s' ]

abbrev pub return : {S A : Type 0} → A → St S A
return a s = some (a, s)

abbrev pub fail : {S A : Type 0} → St S A
fail s = none
