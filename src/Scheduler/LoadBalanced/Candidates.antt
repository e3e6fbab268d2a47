-- ===== src/Scheduler/LoadBalanced/Candidates.antt =====
-- xpyd/scheduler/load_balanced.py: the candidates of a request, and that no index is out of range.
use micro_pdproxy.Base.{
  ℕ, zero, suc, ◌+◌, ◌≤◌, ◌<◌, ◌≡◌, refl, String, Bool, true, false, ◌&&◌, Option, none, some, List,
  [], ◌∷◌, length, get_elem?, get_elem?_lt, leb, eqb, contains, if◌then◌else◌, ok, at, arith,
}
use micro_pdproxy.Scheduler.LoadBalanced.{Pool, usable, candidates_from}

-- The arrays of a role have an entry for each instance.
pub record IsValid (p : Pool) : Type 0 where
  pub utils_length : length p.utils ≡ length p.instances
  pub bs_length : length p.bs ≡ length p.instances
  pub model_length : length p.model_len ≡ length p.instances

pub at_lt {ℓ} : {A : Type ℓ} (xs : List A) (i : ℕ) → i < length xs → (x : A) × (at xs i ≡ ok x)
at_lt xs i h = let (x, found) = get_elem?_lt xs i h in (x, rw found refl)

-- `available is None or instances[i] in available`, of an index in range.
abbrev usable? : Option (List String) → Option String → Bool
usable? none o = true
usable? (some available) none = false
usable? (some available) (some a) = contains available a

-- The instance at `i` takes the request.
abbrev pub takes : ℕ → Option (List String) → List String → ℕ → ℕ → Bool
takes need available instances i max_len =
    leb need max_len && usable? available (get_elem? instances i)

-- The candidates, without the exceptions.
unfoldable pub fitting : ℕ → Option (List String) → List String → ℕ → List ℕ → List ℕ
fitting need available instances i [] = []
fitting need available instances i (max_len ∷ lens) =
    let rest = fitting need available instances (suc i) lens in
    if takes need available instances i max_len then i ∷ rest else rest

usable_lt :
    (available : Option (List String)) (instances : List String) (i : ℕ)
    → i < length instances
    → usable available instances i ≡ ok (usable? available (get_elem? instances i))
unfolding usable
usable_lt none instances i h = refl
usable_lt (some available) instances i h =
    let (x, found) = get_elem?_lt instances i h in rw found refl

pub candidates-fitting :
    (need : ℕ) (available : Option (List String)) (instances : List String) (i : ℕ) (lens : List ℕ)
    → i + length lens ≤ length instances
    → candidates_from need available instances i lens ≡ ok (fitting need available instances i lens)
unfolding candidates_from fitting
candidates-fitting need available instances i [] h = refl
candidates-fitting need available instances i (len ∷ lens) h =
    rw
      (
        candidates-fitting need available instances (suc i) lens (omega arith),
        usable_lt available instances i (omega arith),
      )
      (ground arith)

-- Every index of a list satisfies the predicate.
abbrev pub AllIndices {ℓ} : (ℕ → Type ℓ) → List ℕ → Type ℓ
AllIndices P [] = Unit
AllIndices P (i ∷ is) = P i × AllIndices P is

pub AllIndices-map {ℓ κ} :
    (P : ℕ → Type ℓ) (Q : ℕ → Type κ) (is : List ℕ)
    → ((i : ℕ) → P i → Q i)
    → AllIndices P is
    → AllIndices Q is
AllIndices-map P Q [] f h = tt
AllIndices-map P Q (i ∷ is) f h = (f i h.0, AllIndices-map P Q is f h.1)

fitting-lt :
    (need : ℕ) (available : Option (List String)) (instances : List String) (i n : ℕ)
    (lens : List ℕ)
    → i + length lens ≤ n
    → AllIndices (λ j. j < n) (fitting need available instances i lens)
unfolding fitting
fitting-lt need available instances i n [] h = tt
fitting-lt need available instances i n (len ∷ lens) h =
    ground (arith, fitting-lt need available instances (suc i) n lens (omega arith))

-- The candidates of a pool, and the test that they pass.
abbrev pub candidates : Option (List String) → ℕ → Pool → List ℕ
candidates available need p = fitting need available p.instances 0 p.model_len

pub candidates_ok :
    (available : Option (List String)) (need : ℕ) (p : Pool)
    → IsValid p
    → candidates_from need available p.instances 0 p.model_len ≡ ok (candidates available need p)
candidates_ok available need p v =
    candidates-fitting need available p.instances 0 p.model_len (omega (arith, v.model_length))

pub candidates-lt :
    (available : Option (List String)) (need : ℕ) (p : Pool)
    → IsValid p
    → AllIndices (λ j. j < length p.instances) (candidates available need p)
candidates-lt available need p v =
    fitting-lt need available p.instances 0 (length p.instances) p.model_len
      (omega (arith, v.model_length))

-- Whether the index is in the list.
abbrev pub has_index : List ℕ → ℕ → Bool
has_index [] j = false
has_index (i ∷ is) j = if eqb i j then true else has_index is j

abbrev pub takes_at : ℕ → Option (List String) → List String → ℕ → Option ℕ → Bool
takes_at need available instances j none = false
takes_at need available instances j (some max_len) = takes need available instances j max_len

fitting_before :
    (need : ℕ) (available : Option (List String)) (instances : List String) (i j : ℕ)
    (lens : List ℕ)
    → j < i
    → has_index (fitting need available instances i lens) j ≡ false
unfolding fitting
fitting_before need available instances i j [] h = refl
fitting_before need available instances i j (len ∷ lens) h =
    ground (arith, fitting_before need available instances (suc i) j lens (omega arith))

fitting_iff :
    (need : ℕ) (available : Option (List String)) (instances : List String) (i k : ℕ)
    (lens : List ℕ)
    → has_index (fitting need available instances i lens) (i + k)
      ≡ takes_at need available instances (i + k) (get_elem? lens k)
unfolding fitting
fitting_iff need available instances i k [] = refl
fitting_iff need available instances i zero (len ∷ lens) =
    let e : i + 0 ≡ i = omega arith in
    rw e (ground (arith, fitting_before need available instances (suc i) i lens (omega arith)))
fitting_iff need available instances i (suc k) (len ∷ lens) =
    let e : i + suc k ≡ suc i + k = omega arith in
    rw e (ground (arith, fitting_iff need available instances (suc i) k lens))

-- An index is a candidate exactly when its instance is available, if the registry is asked, and its
-- model takes the prompt and the tokens to generate.
pub candidates_iff :
    (available : Option (List String)) (need : ℕ) (p : Pool) (j : ℕ)
    → has_index (candidates available need p) j
      ≡ takes_at need available p.instances j (get_elem? p.model_len j)
candidates_iff available need p j =
    let e : 0 + j ≡ j = omega arith in
    rw e at (fitting_iff need available p.instances 0 j p.model_len)
