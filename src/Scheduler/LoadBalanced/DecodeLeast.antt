-- ===== src/Scheduler/LoadBalanced/DecodeLeast.antt =====
-- xpyd/scheduler/load_balanced.py: decode requests go to the candidate with the fewest requests, and
-- among several such, if they hold any, to the one with the fewest tokens.
use micro_pdproxy.Base.{
  eqb, ℕ, suc, ◌+◌, ◌<◌, ◌≡◌, ◌⊎◌, refl, sym, ap, ◌∙◌, String, true, Option, none, some, List, [],
  ◌∷◌, map, length, get_or, ok, at, ◌>>=◌, arith, Bool-cases, inl, inr, if◌then◌else◌, if-intro,
}
use micro_pdproxy.Base.Int.{ℤ, pos, ◌≤ℤ◌, eqb_ℤ, ltb_ℤ}
use micro_pdproxy.Scheduler.LoadBalanced.{
  Pool, min_value, first_at, book, all_at, min_key, least_of, pick_decode, schedule_decode,
}
use micro_pdproxy.Scheduler.LoadBalanced.Candidates.{
  IsValid, AllIndices, AllIndices-map, candidates, candidates_ok, candidates-lt, has_index,
}
use micro_pdproxy.Scheduler.LoadBalanced.Least.{
  value, at-value, Attained, min_value_lem, first_at_lem, booked, book_lt,
}

-- The indices whose counter has the value.
abbrev pub ties : List ℤ → ℤ → List ℕ → List ℕ
ties counter v [] = []
ties counter v (i ∷ is) =
    if eqb_ℤ (value counter i) v then i ∷ ties counter v is else ties counter v is

all_at-ties :
    (counter : List ℤ) (v : ℤ) (is : List ℕ)
    → AllIndices (λ i. i < length counter) is
    → all_at counter v is ≡ ok (ties counter v is)
unfolding all_at
all_at-ties counter v [] h = refl
all_at-ties counter v (i ∷ is) h = elim (Bool-cases (eqb_ℤ (value counter i) v)) [
  | inl same ↦ rw (at-value counter i h.0, same, all_at-ties counter v is h.1) refl
  | inr other ↦ rw (at-value counter i h.0, other, all_at-ties counter v is h.1) refl
]

min_key_lem :
    (counter : List ℤ) (best : ℕ) (is : List ℕ)
    → AllIndices (λ i. i < length counter) is
    → (m : ℕ) × (min_key counter best (value counter best) is ≡ ok m)
      × AllIndices (λ j. value counter m ≤ℤ value counter j) (best ∷ is)
      × (has_index (best ∷ is) m ≡ true)
unfolding min_key
min_key_lem counter best [] h = (best, refl, (omega arith, tt), ground arith)
min_key_lem counter best (i ∷ is) h =
    elim (Bool-cases (ltb_ℤ (value counter i) (value counter best))) [
      | inl less ↦
          (let (m, result, all, member) = min_key_lem counter i is h.1 in
            (
              m,
              rw (at-value counter i h.0, less) result,
              (ground (arith, all.0), all),
              ground (arith, member),
            ))
      | inr more ↦
          (let (m, result, all, member) = min_key_lem counter best is h.1 in
            (
              m,
              rw (at-value counter i h.0, more) result,
              (all.0, (ground (arith, all.0), all.1)),
              ground (arith, member),
            ))
    ]

eqb_along :
    (counter : List ℤ) (v : ℤ) (i j : ℕ)
    → eqb i j ≡ true
    → eqb_ℤ (value counter i) v ≡ true
    → value counter j ≡ v
eqb_along counter v i j here same =
    let e : i ≡ j = ground arith in
    let f : value counter i ≡ v = ground arith in ap (value counter) (sym e) ∙ f

ties-has_index :
    (counter : List ℤ) (v : ℤ) (is : List ℕ) (j : ℕ)
    → has_index (ties counter v is) j ≡ true
    → (has_index is j ≡ true) × (value counter j ≡ v)
ties-has_index counter v [] j h = ground arith
ties-has_index counter v (i ∷ is) j h = elim (Bool-cases (eqb_ℤ (value counter i) v)) [
  | inl same ↦ elim (Bool-cases (eqb i j)) [
    | inl here ↦ (ground arith, eqb_along counter v i j here same)
    | inr there ↦ ground (arith, ties-has_index counter v is j)
  ]
  | inr other ↦ ground (arith, ties-has_index counter v is j)
]

-- The counts of requests, as integers.
abbrev pub requests : Pool → List ℤ
requests p = map pos p.bs

-- The outcome over a list of candidates: one of those with the fewest requests is booked, and if
-- they have some, one of them with the fewest tokens; or, if there is no candidate, nothing happens.
abbrev pub FewestBooked : ℕ → List ℕ → Pool → Pool × Option String → Type 0
FewestBooked request_len [] p (q, chosen) = (q ≡ p) × (chosen ≡ none)
FewestBooked request_len (c ∷ cs) p (q, chosen) =
    (index : ℕ) × (has_index (c ∷ cs) index ≡ true)
    × AllIndices (λ j. value (requests p) index ≤ℤ value (requests p) j) (c ∷ cs)
    × ((value (requests p) index ≡ pos 0)
        ⊎ AllIndices (λ j. value p.utils index ≤ℤ value p.utils j)
            (ties (requests p) (value (requests p) index) (c ∷ cs)))
    × (q ≡ booked request_len index p)
    × (chosen ≡ some (get_or p.instances index ""))

length-map : (xs : List ℕ) → length (map pos xs) ≡ length xs
length-map [] = refl
length-map (x ∷ xs) = ap suc (length-map xs)

AllIndices-ties :
    (P : ℕ → Type 0) (counter : List ℤ) (v : ℤ) (is : List ℕ)
    → AllIndices P is
    → AllIndices P (ties counter v is)
AllIndices-ties P counter v [] h = tt
AllIndices-ties P counter v (i ∷ is) h =
    if-intro (AllIndices P) (eqb_ℤ (value counter i) v) (h.0, AllIndices-ties P counter v is h.1)
      (AllIndices-ties P counter v is h.1)

Attained-ties :
    (counter : List ℤ) (v : ℤ) (is : List ℕ)
    → Attained counter v is
    → (i : ℕ) × (rest : List ℕ) × (ties counter v is ≡ i ∷ rest)
Attained-ties counter v [] a = elim a [ ]
Attained-ties counter v (i ∷ is) a = elim (Bool-cases (eqb_ℤ (value counter i) v)) [
  | inl here ↦ (i, ties counter v is, rw (here) refl)
  | inr other ↦
      (let (j, rest, e) =
          Attained-ties counter v is
            (elim a [ inl same ↦ absurd (ground arith) | inr there ↦ there ]) in
        (j, rest, rw (other) e))
]

-- The index chosen among the candidates whose least count is `m`.
chosen_lem :
    (c : ℕ) (cs : List ℕ) (p : Pool) (m : ℤ)
    → AllIndices (λ j. j < length (requests p)) (c ∷ cs)
    → AllIndices (λ j. j < length p.utils) (c ∷ cs)
    → Attained (requests p) m (c ∷ cs)
    → (index : ℕ) × ((if eqb_ℤ m (pos 0)
          then first_at (requests p) (pos 0) (c ∷ cs)
          else (all_at (requests p) m (c ∷ cs) >>= λ min_indices. least_of p.utils min_indices))
        ≡ ok index)
      × (value (requests p) index ≡ m)
      × (has_index (c ∷ cs) index ≡ true)
      × ((m ≡ pos 0)
          ⊎ AllIndices (λ j. value p.utils index ≤ℤ value p.utils j) (ties (requests p) m (c ∷ cs)))
unfolding least_of
chosen_lem c cs p m below below_utils attained = elim (Bool-cases (eqb_ℤ m (pos 0))) [
  | inl zero_now ↦
      (let e : m ≡ pos 0 = ground arith in
        let (index, found, same, member, lt) =
          first_at_lem (requests p) m (c ∷ cs) below attained in
        (index, rw (zero_now) (rw (← e) found), same, member, inl e))
  | inr busy ↦
      (let (i, rest, is) = Attained-ties (requests p) m (c ∷ cs) attained in
        let bound : AllIndices (λ j. j < length p.utils) (i ∷ rest) =
          rw (is) at
            (AllIndices-ties (λ j. j < length p.utils) (requests p) m (c ∷ cs) below_utils) in
        let (index, found, all, member) = min_key_lem p.utils i rest bound.1 in
        let (inside, same) = ties-has_index (requests p) m (c ∷ cs) index (rw (is) member) in
        (
          index,
          rw (busy, all_at-ties (requests p) m (c ∷ cs) below, is, at-value p.utils i bound.0)
              found,
          same,
          inside,
          inr (rw (is) all),
        ))
]

pick_decode_steps :
    (request_len c index : ℕ) (cs : List ℕ) (p : Pool) (u m : ℤ) (r : Pool × Option String)
    → at (requests p) c ≡ ok u
    → min_value (requests p) u cs ≡ ok m
    → (if eqb_ℤ m (pos 0)
        then first_at (requests p) (pos 0) (c ∷ cs)
        else (all_at (requests p) m (c ∷ cs) >>= λ min_indices. least_of p.utils min_indices))
      ≡ ok index
    → book request_len index p ≡ ok r
    → pick_decode request_len (c ∷ cs) p ≡ ok r
pick_decode_steps request_len c index cs p u m r a b f g =
    unfold pick_decode in rw (a, ◌>>=◌, b, f, g)

has_index-lt :
    (n : ℕ) (is : List ℕ) (i : ℕ) → AllIndices (λ j. j < n) is → has_index is i ≡ true → i < n
has_index-lt n [] i h m = ground arith
has_index-lt n (j ∷ is) i h m = ground (arith, has_index-lt n is i h.1)

tie_at :
    (counter utils : List ℤ) (is : List ℕ) (index : ℕ) (m : ℤ)
    → value counter index ≡ m
    → (m ≡ pos 0) ⊎ AllIndices (λ j. value utils index ≤ℤ value utils j) (ties counter m is)
    → (value counter index ≡ pos 0)
      ⊎ AllIndices (λ j. value utils index ≤ℤ value utils j) (ties counter (value counter index) is)
tie_at counter utils is index m e tie = rw (e) tie

pick_decode_lem :
    (request_len : ℕ) (cs : List ℕ) (p : Pool)
    → IsValid p
    → AllIndices (λ j. j < length p.instances) cs
    → (r : Pool × Option String) × (pick_decode request_len cs p ≡ ok r)
      × FewestBooked request_len cs p r
pick_decode_lem request_len [] p v h = ((p, none), unfold pick_decode in refl, (refl, refl))
pick_decode_lem request_len (c ∷ cs) p v h =
    let below : AllIndices (λ j. j < length (requests p)) (c ∷ cs) =
      AllIndices-map (λ j. j < length p.instances) (λ j. j < length (requests p)) (c ∷ cs)
        (λ j q. omega (arith, v.bs_length, length-map p.bs)) h in
    let below_utils : AllIndices (λ j. j < length p.utils) (c ∷ cs) =
      AllIndices-map (λ j. j < length p.instances) (λ j. j < length p.utils) (c ∷ cs)
        (λ j q. omega (arith, v.utils_length)) h in
    let (m, least, le, all, hit) = min_value_lem (requests p) (value (requests p) c) cs below.1 in
    let attained : Attained (requests p) m (c ∷ cs) = elim hit [
      | inl here ↦ inl (sym here)
      | inr there ↦ inr there
    ] in
    let (index, found, e, member, tie) = chosen_lem c cs p m below below_utils attained in
    let r : Pool × Option String =
      (booked request_len index p, some (get_or p.instances index "")) in
    (
      r,
      pick_decode_steps request_len c index cs p (value (requests p) c) m r
          (at-value (requests p) c below.0) least found
          (book_lt request_len index p v
            (has_index-lt (length p.instances) (c ∷ cs) index h member)),
      (
        index,
        member,
        AllIndices-map (λ j. m ≤ℤ value (requests p) j)
            (λ j. value (requests p) index ≤ℤ value (requests p) j) (c ∷ cs) (λ j q. rw e q)
            (le, all),
        tie_at (requests p) p.utils (c ∷ cs) index m e tie,
        refl,
        refl,
      ),
    )

-- On a pool whose arrays match its instances, `_schedule_decode` never raises. It books a candidate
-- with the fewest requests and, if that number is not zero, the fewest tokens among the candidates
-- with as few requests; without a candidate it returns nothing and changes nothing.
pub schedule_decode_lem :
    (available : Option (List String)) (request_len max_tokens : ℕ) (p : Pool)
    → IsValid p
    → (r : Pool × Option String) × (schedule_decode available request_len max_tokens p ≡ ok r)
      × FewestBooked request_len (candidates available (request_len + max_tokens) p) p r
unfolding schedule_decode
schedule_decode_lem available request_len max_tokens p v =
    let need = request_len + max_tokens in
    let (r, result, fewest) =
      pick_decode_lem request_len (candidates available need p) p v
        (candidates-lt available need p v) in
    (r, rw (candidates_ok available need p v) result, fewest)
