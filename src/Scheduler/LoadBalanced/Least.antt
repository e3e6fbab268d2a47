-- ===== src/Scheduler/LoadBalanced/Least.antt =====
-- xpyd/scheduler/load_balanced.py: prefill requests go to the least loaded candidate.
use micro_pdproxy.Base.{
  ℕ, zero, suc, ◌+◌, ◌<◌, ◌≡◌, ◌⊎◌, refl, sym, String, true, Option, none, some, List, [], ◌∷◌,
  length, get_or, set, ok, at, ◌>>=◌, arith, Bool-cases, inl, inr,
}
use micro_pdproxy.Base.Int.{ℤ, pos, ◌≤ℤ◌, ◌+ℤ◌, eqb_ℤ, ltb_ℤ}
use micro_pdproxy.Scheduler.LoadBalanced.{
  Pool, min_value, first_at, book, pick_prefill, schedule_prefill,
}
use micro_pdproxy.Scheduler.LoadBalanced.Candidates.{
  IsValid, AllIndices, AllIndices-map, candidates, candidates_ok, candidates-lt, has_index,
}

-- The counter at an index, and that reading it gives that.
abbrev pub value : List ℤ → ℕ → ℤ
value counter i = get_or counter i (pos 0)

pub at-value : (counter : List ℤ) (i : ℕ) → i < length counter → at counter i ≡ ok (value counter i)
at-value [] i h = absurd (omega arith)
at-value (x ∷ xs) zero h = refl
at-value (x ∷ xs) (suc i) h = at-value xs i (omega arith)

-- Some index of the list has the value.
abbrev pub Attained : List ℤ → ℤ → List ℕ → Type 0
Attained counter v [] = ⊥
Attained counter v (i ∷ is) = (value counter i ≡ v) ⊎ Attained counter v is

module _ (counter : List ℤ) where
  pub min_value_lem :
      (least : ℤ) (is : List ℕ)
      → AllIndices (λ i. i < length counter) is
      → (m : ℤ) × (min_value counter least is ≡ ok m)
        × (m ≤ℤ least)
        × AllIndices (λ i. m ≤ℤ value counter i) is
        × ((m ≡ least) ⊎ Attained counter m is)
  unfolding min_value
  min_value_lem least [] h = (least, refl, omega arith, tt, inl refl)
  min_value_lem least (i ∷ is) h =
      let v = value counter i in
      elim (Bool-cases (ltb_ℤ v least)) [
        | inl less ↦
            let (m, result, le, all, hit) = min_value_lem v is h.1 in
            (
              m,
              rw (at-value counter i h.0, less) result,
              ground arith,
              (le, all),
              elim hit [ inl here ↦ inr (inl (sym here)) | inr there ↦ inr (inr there) ],
            )
        | inr more ↦
            let (m, result, le, all, hit) = min_value_lem least is h.1 in
            (
              m,
              rw (at-value counter i h.0, more) result,
              le,
              (ground arith, all),
              elim hit [ inl here ↦ inl here | inr there ↦ inr (inr there) ],
            )
      ]

  pub first_at_lem :
      (v : ℤ) (is : List ℕ)
      → AllIndices (λ i. i < length counter) is
      → Attained counter v is
      → (i : ℕ) × (first_at counter v is ≡ ok i)
        × (value counter i ≡ v)
        × (has_index is i ≡ true)
        × (i < length counter)
  unfolding first_at
  first_at_lem v [] h a = elim a [ ]
  first_at_lem v (i ∷ is) h a = elim (Bool-cases (eqb_ℤ (value counter i) v)) [
    | inl here ↦ (i, rw (at-value counter i h.0, here) refl, ground arith, ground arith, h.0)
    | inr other ↦
        let (j, result, e, m, lt) =
          first_at_lem v is h.1 (elim a [ inl same ↦ absurd (ground arith) | inr there ↦ there ]) in
        (j, rw (at-value counter i h.0, other) result, e, ground arith, lt)
  ]

-- The pool after the instance at `index` has got a request of `request_len` tokens.
abbrev pub booked : ℕ → ℕ → Pool → Pool
booked request_len index p = record p {
  bs = set p.bs index (get_or p.bs index 0 + 1);
  utils = set p.utils index (value p.utils index +ℤ pos request_len);
  schedule_index = p.schedule_index + 1;
}

at-get_or {ℓ} :
    {A : Type ℓ} (xs : List A) (i : ℕ) (d : A) → i < length xs → at xs i ≡ ok (get_or xs i d)
at-get_or [] i d h = absurd (omega arith)
at-get_or (x ∷ xs) zero d h = refl
at-get_or (x ∷ xs) (suc i) d h = at-get_or xs i d (omega arith)

pub book_lt :
    (request_len index : ℕ) (p : Pool)
    → IsValid p
    → index < length p.instances
    → book request_len index p ≡ ok (booked request_len index p, some (get_or p.instances index ""))
unfolding book
book_lt request_len index p v h =
    rw
      (
        at-get_or p.bs index 0 (omega (arith, v.bs_length)),
        at-get_or p.utils index (pos 0) (omega (arith, v.utils_length)),
        at-get_or p.instances index "" h,
      )
      refl

-- The outcome over a list of candidates: the least loaded of them is booked, or, if there is none,
-- nothing happens.
abbrev pub LeastBooked : ℕ → List ℕ → Pool → Pool × Option String → Type 0
LeastBooked request_len [] p (q, chosen) = (q ≡ p) × (chosen ≡ none)
LeastBooked request_len (c ∷ cs) p (q, chosen) =
    (index : ℕ) × (has_index (c ∷ cs) index ≡ true)
    × AllIndices (λ j. value p.utils index ≤ℤ value p.utils j) (c ∷ cs)
    × (q ≡ booked request_len index p)
    × (chosen ≡ some (get_or p.instances index ""))

pick_prefill_steps :
    (request_len c index : ℕ) (cs : List ℕ) (p : Pool) (u m : ℤ) (r : Pool × Option String)
    → at p.utils c ≡ ok u
    → min_value p.utils u cs ≡ ok m
    → first_at p.utils m (c ∷ cs) ≡ ok index
    → book request_len index p ≡ ok r
    → pick_prefill request_len (c ∷ cs) p ≡ ok r
pick_prefill_steps request_len c index cs p u m r a b f g =
    unfold pick_prefill in rw (a, ◌>>=◌, b, f, g)

pick_prefill_lem :
    (request_len : ℕ) (cs : List ℕ) (p : Pool)
    → IsValid p
    → AllIndices (λ j. j < length p.instances) cs
    → (r : Pool × Option String) × (pick_prefill request_len cs p ≡ ok r)
      × LeastBooked request_len cs p r
pick_prefill_lem request_len [] p v h = ((p, none), unfold pick_prefill in refl, (refl, refl))
pick_prefill_lem request_len (c ∷ cs) p v h =
    let below : AllIndices (λ j. j < length p.utils) (c ∷ cs) =
      AllIndices-map (λ j. j < length p.instances) (λ j. j < length p.utils) (c ∷ cs)
        (λ j q. omega (arith, v.utils_length)) h in
    let (m, least, le, all, hit) = min_value_lem p.utils (value p.utils c) cs below.1 in
    let attained : Attained p.utils m (c ∷ cs) = elim hit [
      | inl here ↦ inl (sym here)
      | inr there ↦ inr there
    ] in
    let (index, found, e, member, lt) = first_at_lem p.utils m (c ∷ cs) below attained in
    let r : Pool × Option String =
      (booked request_len index p, some (get_or p.instances index "")) in
    (
      r,
      pick_prefill_steps request_len c index cs p (value p.utils c) m r (at-value p.utils c below.0)
          least found (book_lt request_len index p v (omega (arith, v.utils_length))),
      (
        index,
        member,
        AllIndices-map (λ j. m ≤ℤ value p.utils j) (λ j. value p.utils index ≤ℤ value p.utils j)
            (c ∷ cs) (λ j q. rw e q) (le, all),
        refl,
        refl,
      ),
    )

-- On a pool whose arrays match its instances, `_schedule_prefill` never raises. It books a candidate
-- with the fewest tokens, counts the request and its tokens there and nowhere else, and returns the
-- instance; without a candidate it returns nothing and changes nothing.
pub schedule_prefill_lem :
    (available : Option (List String)) (request_len max_tokens : ℕ) (p : Pool)
    → IsValid p
    → (r : Pool × Option String) × (schedule_prefill available request_len max_tokens p ≡ ok r)
      × LeastBooked request_len (candidates available (request_len + max_tokens) p) p r
unfolding schedule_prefill
schedule_prefill_lem available request_len max_tokens p v =
    let need = request_len + max_tokens in
    let (r, result, least) =
      pick_prefill_lem request_len (candidates available need p) p v
        (candidates-lt available need p v) in
    (r, rw (candidates_ok available need p v) result, least)
