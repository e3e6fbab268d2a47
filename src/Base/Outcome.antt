-- ===== src/Base/Outcome.antt =====
-- Python's exceptions as values.
use mathlib.Core.Path.{◌≡◌, refl}
use mathlib.Core.Logic.{◌⊎◌, inl, inr}
use mathlib.Core.Option.{Option, none, some}
use mathlib.Core.Bool.{Bool, true, false}
use Prim.Native.Nat.{ℕ}
use mathlib.Core.List.{List}
use micro_pdproxy.Base.Lists.{get_elem?}
use micro_pdproxy.Base.Tests.{if◌then◌else◌}

-- The classes of the exceptions that the modelled code raises.
pub data Error : Type 0 where
  value_error key_error type_error index_error attribute_error stop_iteration timeout_error : Error
  runtime_error assertion_error json_error cancelled_error : Error
  http_exception : ℕ → Error

pub data Result {ℓ} (A : Type ℓ) : Type ℓ where
  ok : A → Result A
  raise : Error → Result A

infixl 5 ◌>>=◌
abbrev pub ◌>>=◌ {ℓ κ} : {A : Type ℓ} {B : Type κ} → Result A → (A → Result B) → Result B
ok a >>= f = f a
raise e >>= f = raise e

-- What holds of the value, if there is one.
abbrev pub Ensures {ℓ κ} : {A : Type ℓ} → (A → Type κ) → Result A → Type κ
Ensures P (ok a) = P a
Ensures P (raise e) = Unit

pub Ensures-bind {ℓ κ μ ν} :
    {A : Type ℓ} {B : Type κ} (P : A → Type μ) (Q : B → Type ν) (m : Result A) (f : A → Result B)
    → Ensures P m
    → ((a : A) → P a → Ensures Q (f a))
    → Ensures Q (m >>= f)
Ensures-bind P Q (ok a) f h k = k a h
Ensures-bind P Q (raise e) f h k = tt

pub Ensures-if {ℓ κ} :
    {A : Type ℓ} (P : A → Type κ) (b : Bool) (m n : Result A)
    → (b ≡ true → Ensures P m)
    → (b ≡ false → Ensures P n)
    → Ensures P (if b then m else n)
Ensures-if P true m n h k = h refl
Ensures-if P false m n h k = k refl

-- `d[k]` where `d.get(k)` is `o`
abbrev pub or_raise {ℓ} : {A : Type ℓ} → Error → Option A → Result A
or_raise e none = raise e
or_raise e (some a) = ok a

pub or_raise-Ensures {ℓ κ} :
    {A : Type ℓ} (P : A → Type κ) (e : Error) (o : Option A)
    → ((a : A) → o ≡ some a → P a)
    → Ensures P (or_raise e o)
or_raise-Ensures P e none h = tt
or_raise-Ensures P e (some a) h = h a refl

-- The state after a call: as it was, if the call raised.
abbrev pub or_unchanged {ℓ} : {S : Type ℓ} → S → Result S → S
or_unchanged s (ok s') = s'
or_unchanged s (raise e) = s

pub or_unchanged_keeps {ℓ κ} :
    {S : Type ℓ} (P : S → Type κ) (s : S) (m : Result S) → P s → Ensures P m → P (or_unchanged s m)
or_unchanged_keeps P s (ok s') h k = k
or_unchanged_keeps P s (raise e) h k = h

-- xs[i]
abbrev pub at {ℓ} : {A : Type ℓ} → List A → ℕ → Result A
at xs i = or_raise index_error (get_elem? xs i)

-- To split on a computed result and keep the equation.
pub Result-cases {ℓ} :
    {A : Type ℓ} (r : Result A) → ((a : A) × (r ≡ ok a)) ⊎ ((e : Error) × (r ≡ raise e))
Result-cases (ok a) = inl (a, refl)
Result-cases (raise e) = inr (e, refl)
