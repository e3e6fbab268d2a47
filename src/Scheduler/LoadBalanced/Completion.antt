-- ===== src/Scheduler/LoadBalanced/Completion.antt =====
-- xpyd/scheduler/load_balanced.py: the completion of a request undoes its booking.
use micro_pdproxy.Base.{
  ℕ, zero, suc, ◌+◌, ◌-◌, ◌<◌, ◌≡◌, refl, ap, ◌∙◌, String, true, false, some, List, [], ◌∷◌, length,
  get_or, set, replicate, ok, at, arith, Bool-cases, inl, inr, if◌then◌else◌, contains, Distinct,
  eqb,
}
use micro_pdproxy.Base.Int.{pos, ◌+ℤ◌, ◌-ℤ◌, +ℤ-cancel}
use micro_pdproxy.Scheduler.LoadBalanced.{Pool, book, index_from, all_zero, release, complete}
use micro_pdproxy.Scheduler.LoadBalanced.Candidates.{IsValid}
use micro_pdproxy.Scheduler.LoadBalanced.Least.{booked, book_lt, value}

module _ {ℓ} {A : Type ℓ} where
  set-set : (xs : List A) (i : ℕ) (v w : A) → set (set xs i v) i w ≡ set xs i w
  set-set [] i v w = refl
  set-set (x ∷ xs) zero v w = refl
  set-set (x ∷ xs) (suc i) v w = ap (λ ys. x ∷ ys) (set-set xs i v w)

  set-get_or : (xs : List A) (i : ℕ) (d : A) → set xs i (get_or xs i d) ≡ xs
  set-get_or [] i d = refl
  set-get_or (x ∷ xs) zero d = refl
  set-get_or (x ∷ xs) (suc i) d = ap (λ ys. x ∷ ys) (set-get_or xs i d)

  at-set : (xs : List A) (i : ℕ) (v : A) → i < length xs → at (set xs i v) i ≡ ok v
  at-set [] i v h = absurd (omega arith)
  at-set (x ∷ xs) zero v h = refl
  at-set (x ∷ xs) (suc i) v h = at-set xs i v (omega arith)

contains-get_or : (xs : List String) (i : ℕ) → i < length xs → contains xs (get_or xs i "") ≡ true
contains-get_or [] i h = absurd (omega arith)
contains-get_or (x ∷ xs) zero h = ground arith
contains-get_or (x ∷ xs) (suc i) h = ground (arith, contains-get_or xs i)

-- `index` finds the only place of an instance.
index_from-get_or :
    (first i : ℕ) (xs : List String)
    → Distinct xs
    → i < length xs
    → index_from first (get_or xs i "") xs ≡ ok (first + i)
unfolding index_from
index_from-get_or first i [] once h = absurd (omega arith)
index_from-get_or first zero (x ∷ xs) once h = ground arith
index_from-get_or first (suc i) (x ∷ xs) once h =
    ground (arith, index_from-get_or (suc first) i xs once.1, contains-get_or xs i, once.0)

-- What a pool is after the booking and its completion.
abbrev completed : Pool → Pool → Pool
completed p q = record q {
  bs = p.bs;
  completion_index = q.completion_index + 1;
  utils = if all_zero p.bs then replicate (length p.instances) (pos 0) else p.utils;
}

release-booked :
    (n index : ℕ) (p : Pool)
    → IsValid p
    → index < length p.instances
    → release n index (get_or p.bs index 0 + 1) (booked n index p)
      ≡ ok (completed p (booked n index p))
unfolding release
release-booked n index p v h =
    let u = value p.utils index in
    let bs_back : set (set p.bs index (get_or p.bs index 0 + 1)) index (get_or p.bs index 0 + 1 - 1)
        ≡ p.bs =
      set-set p.bs index (get_or p.bs index 0 + 1) (get_or p.bs index 0 + 1 - 1)
      ∙ (ap (set p.bs index) (omega arith) ∙ set-get_or p.bs index 0) in
    let utils_at : at (set p.utils index (u +ℤ pos n)) index ≡ ok (u +ℤ pos n) =
      at-set p.utils index (u +ℤ pos n) (omega (arith, v.utils_length)) in
    let utils_back : set (set p.utils index (u +ℤ pos n)) index (u +ℤ pos n -ℤ pos n) ≡ p.utils =
      set-set p.utils index (u +ℤ pos n) (u +ℤ pos n -ℤ pos n)
      ∙ (ap (set p.utils index) (+ℤ-cancel u (pos n)) ∙ set-get_or p.utils index (pos 0)) in
    elim (Bool-cases (all_zero p.bs)) [
      | inl idle ↦ rw (bs_back, release, idle) refl
      | inr busy ↦ rw (bs_back, release, busy, utils_at, utils_back) refl
    ]

-- On a pool whose arrays match its instances, none of which is listed twice, booking a request on an
-- instance and then completing it raises nothing and gives back every count of requests, and every
-- count of tokens unless the pool falls idle, when all of them become zero.
pub book_complete_lem :
    (n index : ℕ) (p : Pool)
    → IsValid p
    → Distinct p.instances
    → index < length p.instances
    → (q : Pool) × (instance : String) × (r : Pool) × (book n index p ≡ ok (q, some instance))
      × (complete instance n q ≡ ok r)
      × (r.bs ≡ p.bs)
      × (r.utils ≡ (if all_zero p.bs then replicate (length p.instances) (pos 0) else p.utils))
unfolding complete
book_complete_lem n index p v once h =
    let q = booked n index p in
    let instance = get_or p.instances index "" in
    let bs_at : at q.bs index ≡ ok (get_or p.bs index 0 + 1) =
      at-set p.bs index (get_or p.bs index 0 + 1) (omega (arith, v.bs_length)) in
    let found : index_from 0 instance p.instances ≡ ok index =
      index_from-get_or 0 index p.instances once h ∙ ap ok (omega arith) in
    let busy : eqb (get_or p.bs index 0 + 1) 0 ≡ false = ground arith in
    (
      q,
      instance,
      completed p q,
      book_lt n index p v h,
      rw (found, complete, bs_at, busy) (release-booked n index p v h),
      refl,
      refl,
    )
