-- ===== src/Base/Sort.antt =====
-- `sorted` on texts, and sets of texts as lists without repetition.
use Prim.Native.Nat.{ℕ, Ordering, compare as compare_ℕ}
use Prim.Native.Char.{code}
use Prim.Native.String.{String, compare as compare_texts}
use Prim.Native.String.compare
use mathlib.Core.Path.{◌≡◌, refl}
use mathlib.Core.Bool.{Bool, true, false}
use mathlib.Core.List.{List, [], ◌∷◌}
use native.Mathlib.Omega.{arith}
use micro_pdproxy.Base.Tests.{if◌then◌else◌}
use micro_pdproxy.Base.Text.{◌==◌, contains, Distinct}

abbrev flip : Ordering → Ordering
flip Ordering.lt = Ordering.gt
flip Ordering.eq = Ordering.eq
flip Ordering.gt = Ordering.lt

abbrev is_le : Ordering → Bool
is_le Ordering.lt = true
is_le Ordering.eq = true
is_le Ordering.gt = false

compare-flip_ℕ : (m n : ℕ) → compare_ℕ n m ≡ flip (compare_ℕ m n)
compare-flip_ℕ m n = ground arith

compare-flip : (s t : String) → compare_texts t s ≡ flip (compare_texts s t)
compare-flip String.[] String.[] = rw compare.nil-nil refl
compare-flip String.[] (String.◌∷◌ d t) = rw (compare.nil-cons, compare.cons-nil) refl
compare-flip (String.◌∷◌ c s) String.[] = rw (compare.nil-cons, compare.cons-nil) refl
compare-flip (String.◌∷◌ c s) (String.◌∷◌ d t) =
    rw (compare.cons-cons c d s t, compare.cons-cons d c t s)
      (ground (arith, compare-flip s t, compare-flip_ℕ (code c) (code d)))

-- Python's `<=` on texts: by code points.
unfoldable pub text_le : String → String → Bool
text_le s t = is_le (compare_texts s t)

text_le_total : (s t : String) → text_le s t ≡ false → text_le t s ≡ true
unfolding text_le
text_le_total s t h = ground (arith, compare-flip s t)

unfoldable pub insert_sorted : String → List String → List String
unfolding text_le
insert_sorted a [] = a ∷ []
insert_sorted a (x ∷ xs) = if text_le a x then a ∷ x ∷ xs else x ∷ insert_sorted a xs

-- sorted(xs)
unfoldable pub sorted : List String → List String
unfolding insert_sorted
sorted [] = []
sorted (x ∷ xs) = insert_sorted x (sorted xs)

-- set(xs)
unfoldable pub set_of : List String → List String
set_of [] = []
set_of (x ∷ xs) = let rest = set_of xs in if contains rest x then rest else x ∷ rest

-- `a` is at most the first element, if there is one.
abbrev pub Leads : String → List String → Type 0
Leads a [] = Unit
Leads a (x ∷ xs) = text_le a x ≡ true

abbrev pub IsSorted : List String → Type 0
IsSorted [] = Unit
IsSorted (x ∷ xs) = Leads x xs × IsSorted xs

module _ (a : String) where
  Leads-insert_sorted :
      (x : String) (xs : List String)
      → Leads x xs
      → text_le x a ≡ true
      → Leads x (insert_sorted a xs)
  unfolding insert_sorted text_le
  Leads-insert_sorted x [] l h = h
  Leads-insert_sorted x (y ∷ xs) l h = ground arith

  insert_sorted-IsSorted : (xs : List String) → IsSorted xs → IsSorted (insert_sorted a xs)
  unfolding insert_sorted
  insert_sorted-IsSorted [] s = (tt, tt)
  insert_sorted-IsSorted (x ∷ xs) s =
      ground (arith, insert_sorted-IsSorted xs s.1, Leads-insert_sorted x xs s.0, text_le_total a x)

  contains-insert_sorted :
      (xs : List String) (b : String)
      → contains (insert_sorted a xs) b ≡ (if a == b then true else contains xs b)
  unfolding insert_sorted
  contains-insert_sorted [] b = refl
  contains-insert_sorted (x ∷ xs) b = ground (arith, contains-insert_sorted xs b)

  insert_sorted-Distinct :
      (xs : List String) → contains xs a ≡ false → Distinct xs → Distinct (insert_sorted a xs)
  unfolding insert_sorted
  insert_sorted-Distinct [] n d = (refl, tt)
  insert_sorted-Distinct (x ∷ xs) n d =
      ground (arith, insert_sorted-Distinct xs, contains-insert_sorted xs x)

pub sorted-IsSorted : (xs : List String) → IsSorted (sorted xs)
unfolding sorted
sorted-IsSorted [] = tt
sorted-IsSorted (x ∷ xs) = insert_sorted-IsSorted x (sorted xs) (sorted-IsSorted xs)

pub contains-sorted : (xs : List String) (b : String) → contains (sorted xs) b ≡ contains xs b
unfolding sorted
contains-sorted [] b = refl
contains-sorted (x ∷ xs) b =
    ground (arith, contains-insert_sorted x (sorted xs) b, contains-sorted xs b)

pub sorted-Distinct : (xs : List String) → Distinct xs → Distinct (sorted xs)
unfolding sorted
sorted-Distinct [] d = tt
sorted-Distinct (x ∷ xs) d =
    insert_sorted-Distinct x (sorted xs) (ground (arith, contains-sorted xs x))
      (sorted-Distinct xs d.1)

pub contains-set_of : (xs : List String) (b : String) → contains (set_of xs) b ≡ contains xs b
unfolding set_of
contains-set_of [] b = refl
contains-set_of (x ∷ xs) b = ground (arith, contains-set_of xs b, contains-set_of xs x)

pub set_of-Distinct : (xs : List String) → Distinct (set_of xs)
unfolding set_of
set_of-Distinct [] = tt
set_of-Distinct (x ∷ xs) = ground (arith, set_of-Distinct xs)
