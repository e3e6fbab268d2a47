-- ===== src/Base/Dict.antt =====
-- Python's `dict` with text keys: an association list in insertion order. Assignment to a present
-- key changes the entry in place, and to a new key adds it at the end.
use Prim.Native.String.{String}
use mathlib.Core.Path.{◌≡◌, refl}
use mathlib.Core.Logic.{inl, inr}
use mathlib.Core.Bool.{Bool, true, false}
use mathlib.Core.Option.{Option, none, some}
use mathlib.Core.List.{List, [], ◌∷◌}
use native.Mathlib.Omega.{arith}
use micro_pdproxy.Base.Tests.{Option-cases, if◌then◌else◌}
use micro_pdproxy.Base.Text.{◌==◌, contains, Distinct}

abbrev pub Dict {ℓ} : Type ℓ → Type ℓ
Dict V = List (String × V)

module _ {ℓ} {V : Type ℓ} where
  -- d.get(k)
  unfoldable pub get : Dict V → String → Option V
  get [] k = none
  get ((j, v) ∷ d) k = if j == k then some v else get d k

  -- k in d
  unfoldable pub has : Dict V → String → Bool
  has [] k = false
  has ((j, v) ∷ d) k = if j == k then true else has d k

  -- d[k] = v
  unfoldable pub set : Dict V → String → V → Dict V
  set [] k v = (k, v) ∷ []
  set ((j, w) ∷ d) k v = if j == k then (j, v) ∷ d else (j, w) ∷ set d k v

  -- del d[k]
  unfoldable pub delete : Dict V → String → Dict V
  delete [] k = []
  delete ((j, v) ∷ d) k = if j == k then d else (j, v) ∷ delete d k

  abbrev pub keys : Dict V → List String
  keys [] = []
  keys ((k, v) ∷ d) = k ∷ keys d

  abbrev pub values : Dict V → List V
  values [] = []
  values ((k, v) ∷ d) = v ∷ values d

  -- A property of every entry.
  abbrev pub AllEntries {κ} : (String → V → Type κ) → Dict V → Type κ
  AllEntries P [] = Unit
  AllEntries P ((k, v) ∷ d) = P k v × AllEntries P d

  pub get-set :
      (d : Dict V) (k j : String) (v : V) → get (set d k v) j ≡ (if k == j then some v else get d j)
  unfolding get set
  get-set [] k j v = refl
  get-set ((i, w) ∷ d) k j v = ground (arith, get-set d k j v)

  pub has-eq-contains : (d : Dict V) (k : String) → has d k ≡ contains (keys d) k
  unfolding has
  has-eq-contains [] k = refl
  has-eq-contains ((i, w) ∷ d) k = ground (arith, has-eq-contains d k)

  pub has_of-get : (d : Dict V) (k : String) (v : V) → get d k ≡ some v → has d k ≡ true
  unfolding get has
  has_of-get [] k v h = ground arith
  has_of-get ((i, w) ∷ d) k v h = ground (arith, has_of-get d k v)

  pub get_of-not-has : (d : Dict V) (k : String) → has d k ≡ false → get d k ≡ none
  unfolding get has
  get_of-not-has [] k h = refl
  get_of-not-has ((i, w) ∷ d) k h = ground (arith, get_of-not-has d k)

  pub not-has_of-get : (d : Dict V) (k : String) → get d k ≡ none → has d k ≡ false
  unfolding get has
  not-has_of-get [] k h = refl
  not-has_of-get ((i, w) ∷ d) k h = ground (arith, not-has_of-get d k)

  pub get_of-has : (d : Dict V) (k : String) → has d k ≡ true → (v : V) × (get d k ≡ some v)
  get_of-has d k h = elim (Option-cases (get d k)) [
    | inl missing ↦ absurd (ground (arith, not-has_of-get d k missing))
    | inr found ↦ found
  ]

  pub keys-set_present :
      (d : Dict V) (k : String) (v : V) → has d k ≡ true → keys (set d k v) ≡ keys d
  unfolding has set
  keys-set_present [] k v h = ground arith
  keys-set_present ((i, w) ∷ d) k v h = ground (arith, keys-set_present d k v)

  contains-keys-set :
      (d : Dict V) (k j : String) (v : V)
      → contains (keys (set d k v)) j ≡ (if k == j then true else contains (keys d) j)
  unfolding set
  contains-keys-set [] k j v = refl
  contains-keys-set ((i, w) ∷ d) k j v = ground (arith, contains-keys-set d k j v)

  pub has-set :
      (d : Dict V) (k j : String) (v : V) → has (set d k v) j ≡ (if k == j then true else has d j)
  unfolding has set
  has-set [] k j v = refl
  has-set ((i, w) ∷ d) k j v = ground (arith, has-set d k j v)

  pub set-Distinct :
      (d : Dict V) (k : String) (v : V) → Distinct (keys d) → Distinct (keys (set d k v))
  unfolding set
  set-Distinct [] k v h = (refl, tt)
  set-Distinct ((i, w) ∷ d) k v h =
      ground (arith, set-Distinct d k v h.1, contains-keys-set d k i v)

  contains-keys-delete :
      (d : Dict V) (k j : String)
      → contains (keys d) j ≡ false
      → contains (keys (delete d k)) j ≡ false
  unfolding delete
  contains-keys-delete [] k j h = h
  contains-keys-delete ((i, w) ∷ d) k j h = ground (arith, contains-keys-delete d k j)

  pub delete-Distinct : (d : Dict V) (k : String) → Distinct (keys d) → Distinct (keys (delete d k))
  unfolding delete
  delete-Distinct [] k h = h
  delete-Distinct ((i, w) ∷ d) k h =
      ground (arith, delete-Distinct d k h.1, contains-keys-delete d k i h.0)

  pub get-delete :
      (d : Dict V) (k j : String)
      → Distinct (keys d)
      → get (delete d k) j ≡ (if k == j then none else get d j)
  unfolding get delete
  get-delete [] k j h = ground arith
  get-delete ((i, w) ∷ d) k j h =
      ground (arith, get-delete d k j h.1, has-eq-contains d i, get_of-not-has d i)

  pub AllEntries-set {κ} :
      (P : String → V → Type κ) (d : Dict V) (k : String) (v : V)
      → AllEntries P d
      → P k v
      → AllEntries P (set d k v)
  unfolding set
  AllEntries-set P [] k v h p = (p, tt)
  AllEntries-set P ((i, w) ∷ d) k v h p = ground (arith, AllEntries-set P d k v h.1 p)

  pub AllEntries-delete {κ} :
      (P : String → V → Type κ) (d : Dict V) (k : String)
      → AllEntries P d
      → AllEntries P (delete d k)
  unfolding delete
  AllEntries-delete P [] k h = h
  AllEntries-delete P ((i, w) ∷ d) k h = ground (arith, AllEntries-delete P d k h.1)

  pub AllEntries-get {κ} :
      (P : String → V → Type κ) (d : Dict V) (k : String) (v : V)
      → AllEntries P d
      → get d k ≡ some v
      → P k v
  unfolding get
  AllEntries-get P [] k v h e = ground arith
  AllEntries-get P ((i, w) ∷ d) k v h e = ground (arith, AllEntries-get P d k v h.1)
