-- ===== src/Base/Text.antt =====
-- Equality of texts as a decision and as a Boolean test.
use Prim.Native.String.{String}
use mathlib.Core.Path.{◌≡◌}
use mathlib.Core.Logic.{inl, inr, ◌≢◌}
use mathlib.Core.Bool.{Bool, true, false}
use mathlib.Core.List.{List, [], ◌∷◌}
use native.Mathlib.Omega.{arith}
use text.Mathlib.Text.{◌==◌ as str_eq}
use text.Mathlib.TextEquality.{eq_iff}
use micro_pdproxy.Base.Tests.{Bool-cases, if◌then◌else◌}

unfoldable pub string_discrete : Discrete String
unfolding Bool-cases
string_discrete a b = elim (Bool-cases (str_eq a b)) [
  | inl same ↦ yes ((eq_iff a b).0 same)
  | inr other ↦ no (λ p. ground (arith, eq_iff a b))
]

infix 50 ◌==◌
abbrev pub ◌==◌ : String → String → Bool
a == b = elim (string_discrete a b) [ yes _ ↦ true | no _ ↦ false ]

pub differs : (a b : String) → (a == b) ≡ false → a ≢ b
differs a b h p = ground (arith, p)

-- `a in xs`
abbrev pub contains : List String → String → Bool
contains [] a = false
contains (x ∷ xs) a = if x == a then true else contains xs a

-- No text twice.
abbrev pub Distinct : List String → Type 0
Distinct [] = Unit
Distinct (x ∷ xs) = (contains xs x ≡ false) × Distinct xs
