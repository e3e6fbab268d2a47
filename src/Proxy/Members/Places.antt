-- ===== src/Proxy/Members/Places.antt =====
-- xpyd/proxy.py: an instance is taken out of a list, and its place out of the scheduler's arrays.
use mathlib.Core.Path.{subst}
use micro_pdproxy.Base.{
  ℕ, zero, suc, ◌+◌, ◌≤◌, ◌<◌, String, ◌≡◌, refl, ap, inl, inr, false, List, [], ◌∷◌, arith, ◌==◌,
  ok, length, Bool-cases, remove_at, Distinct, contains, if-elim,
}
use micro_pdproxy.Scheduler.LoadBalanced.{Pool, index_from}
use micro_pdproxy.HealthMonitor.{remove_first}
use micro_pdproxy.Scheduler.LoadBalanced.Candidates.{IsValid}
use micro_pdproxy.Proxy.Members.View.{View, list_of, put_view}
use micro_pdproxy.Scheduler.LoadBalanced.{shrink}
use micro_pdproxy.Proxy.Members.Restored.{Shares}
use micro_pdproxy.Scheduler.LoadBalanced.{shrink}
use micro_pdproxy.Proxy.Members.Restored.{hold}
use micro_pdproxy.Proxy.Policies.{
  load_balanced, round_robin, consistent_hash, power_of_two, cache_aware,
}

pub length-remove_first :
    (first index : ℕ) (a : String) (xs : List String)
    → index_from first a xs ≡ ok index
    → (first ≤ index) × (index < first + length xs) × (length (remove_first a xs) + 1 ≡ length xs)
unfolding index_from
length-remove_first first index a [] h = absurd (ground (arith, h))
length-remove_first first index a (x ∷ xs) h =
    ground (arith, length-remove_first (suc first) index a xs)

pub length-remove_at {ℓ} :
    {A : Type ℓ} (xs : List A) (i : ℕ) → i < length xs → length (remove_at xs i) + 1 ≡ length xs
length-remove_at [] i h = absurd (omega arith)
length-remove_at (x ∷ xs) zero h = ground arith
length-remove_at (x ∷ xs) (suc i) h = ground (arith, length-remove_at xs i)

pub shrink-IsValid :
    (index : ℕ) (a : String) (xs : List String) (p : Pool)
    → IsValid p
    → p.instances ≡ xs
    → index_from 0 a xs ≡ ok index
    → IsValid (hold (remove_first a xs) (shrink index p))
unfolding shrink
shrink-IsValid index a xs p v h found =
    let (least, below, shorter) = length-remove_first 0 index a xs found in
    let size = ap length h in
    record {
      utils_length = omega (
        arith,
        shorter,
        size,
        v.utils_length,
        length-remove_at p.utils index (omega (arith, below, size, v.utils_length)),
      );
      bs_length = omega (
        arith,
        shorter,
        size,
        v.bs_length,
        length-remove_at p.bs index (omega (arith, below, size, v.bs_length)),
      );
      model_length = omega (
        arith,
        shorter,
        size,
        v.model_length,
        length-remove_at p.model_len index (omega (arith, below, size, v.model_length)),
      );
    }

-- Putting a list in its own place.
pub put_same : (role : String) (v : View) → Shares v → Shares (put_view role (list_of role v) v)
put_same role (ps, ds, load_balanced s) (v, v', e, e') = elim (Bool-cases (role == "aggregated")) [
  | inl h ↦ rw h (v, v', e, e')
  | inr h ↦ elim (Bool-cases (role == "prefill")) [
    | inl h' ↦ rw (h, h') (subst (λ xs. IsValid (hold xs s.prefill)) e v, v', refl, e')
    | inr h' ↦ rw (h, h') (v, subst (λ xs. IsValid (hold xs s.decode)) e' v', e, refl)
  ]
]
put_same role (ps, ds, round_robin) u = elim (Bool-cases (role == "aggregated")) [
  | inl h ↦ rw h tt
  | inr h ↦ elim (Bool-cases (role == "prefill")) [
    | inl h' ↦ rw (h, h') tt
    | inr h' ↦ rw (h, h') tt
  ]
]
put_same role (ps, ds, consistent_hash q) u = elim (Bool-cases (role == "aggregated")) [
  | inl h ↦ rw h tt
  | inr h ↦ elim (Bool-cases (role == "prefill")) [
    | inl h' ↦ rw (h, h') tt
    | inr h' ↦ rw (h, h') tt
  ]
]
put_same role (ps, ds, power_of_two q) u = elim (Bool-cases (role == "aggregated")) [
  | inl h ↦ rw h tt
  | inr h ↦ elim (Bool-cases (role == "prefill")) [
    | inl h' ↦ rw (h, h') tt
    | inr h' ↦ rw (h, h') tt
  ]
]
put_same role (ps, ds, cache_aware q) u = elim (Bool-cases (role == "aggregated")) [
  | inl h ↦ rw h tt
  | inr h ↦ elim (Bool-cases (role == "prefill")) [
    | inl h' ↦ rw (h, h') tt
    | inr h' ↦ rw (h, h') tt
  ]
]

pub contains-remove_first :
    (a b : String) (xs : List String)
    → contains xs b ≡ false
    → contains (remove_first a xs) b ≡ false
contains-remove_first a b [] h = h
contains-remove_first a b (x ∷ xs) h = ground (arith, contains-remove_first a b xs)

pub remove_first-gone :
    (a : String) (xs : List String) → Distinct xs → contains (remove_first a xs) a ≡ false
remove_first-gone a [] once = refl
remove_first-gone a (x ∷ xs) once = ground (arith, remove_first-gone a xs once.1, once.0)

pub remove_first-Distinct :
    (a : String) (xs : List String) → Distinct xs → Distinct (remove_first a xs)
remove_first-Distinct a [] once = tt
remove_first-Distinct a (x ∷ xs) once =
    if-elim Distinct (x == a) (λ yes. once.1)
      (λ no. (contains-remove_first a x xs once.0, remove_first-Distinct a xs once.1))
