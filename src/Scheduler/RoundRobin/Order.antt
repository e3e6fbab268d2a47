-- ===== src/Scheduler/RoundRobin/Order.antt =====
-- xpyd/scheduler/round_robin.py: the search ends, finds the next available instance in order, and
-- puts it last; without a registry the instances come in turn.
use micro_pdproxy.Base.{
  ℕ, zero, suc, ◌+◌, ◌<◌, ◌≡◌, refl, ◌∙◌, sym, String, true, false, Option, none, some, List, [],
  ◌∷◌, ◌++◌, map, length, is_empty, contains, Distinct, if◌then◌else◌, ok, raise, arith, Bool-cases,
  inl, inr,
}
use mathlib.Core.List.{append-nil, append_assoc}
use micro_pdproxy.Scheduler.RoundRobin.{search_from, schedule}

-- No member of the first list is in the second.
abbrev pub NoneIn : List String → List String → Type 0
NoneIn [] available = Unit
NoneIn (x ∷ xs) available = (contains available x ≡ false) × NoneIn xs available

-- The answer from a cycler: the next available instance, which then comes last, or nothing, and
-- then no item is available.
abbrev pub Chosen : List String → List String → Option String → List String → Type 0
Chosen available cycler (some x) after =
    (before : List String) × (behind : List String) × (cycler ≡ before ++ (x ∷ behind))
    × NoneIn before available
    × (contains available x ≡ true)
    × (after ≡ (behind ++ before) ++ (x ∷ []))
Chosen available cycler none after = NoneIn cycler available

contains-append :
    (xs ys : List String) (a : String)
    → contains (xs ++ ys) a ≡ (if contains xs a then true else contains ys a)
contains-append [] ys a = refl
contains-append (x ∷ xs) ys a = ground (arith, contains-append xs ys a)

NoneIn-append :
    (xs ys available : List String)
    → NoneIn xs available
    → NoneIn ys available
    → NoneIn (xs ++ ys) available
NoneIn-append [] ys available h k = k
NoneIn-append (x ∷ xs) ys available h k = (h.0, NoneIn-append xs ys available h.1 k)

-- Items that are still to come differ from those seen.
abbrev Fresh : List String → List String → Type 0
Fresh [] seen = Unit
Fresh (x ∷ xs) seen = (contains seen x ≡ false) × Fresh xs seen

Fresh-cons :
    (xs seen : List String) (x : String)
    → contains xs x ≡ false
    → Fresh xs seen
    → Fresh xs (x ∷ seen)
Fresh-cons [] seen x n h = tt
Fresh-cons (y ∷ xs) seen x n h = ground (arith, Fresh-cons xs seen x)

-- Every member of the first list is in the second.
abbrev AllIn : List String → List String → Type 0
AllIn [] seen = Unit
AllIn (x ∷ xs) seen = (contains seen x ≡ true) × AllIn xs seen

AllIn-weaken : (xs seen : List String) (x : String) → AllIn xs seen → AllIn xs (x ∷ seen)
AllIn-weaken [] seen x h = tt
AllIn-weaken (y ∷ xs) seen x h = ground (arith, AllIn-weaken xs seen x)

AllIn-append :
    (xs seen : List String) (x : String) → AllIn xs seen → AllIn (xs ++ (x ∷ [])) (x ∷ seen)
AllIn-append [] seen x h = ground arith
AllIn-append (y ∷ xs) seen x h = ground (arith, AllIn-append xs seen x)

module _ (available all : List String) where
  -- One round that finds nothing: the item goes behind the others.
  search_skip :
      (fuel : ℕ) (seen todo done : List String) (x : String)
      → contains available x ≡ false
      → contains seen x ≡ false
      → search_from (suc fuel) available seen ((x ∷ todo) ++ done)
        ≡ search_from fuel available (x ∷ seen) (todo ++ (done ++ (x ∷ [])))
  unfolding search_from
  search_skip fuel seen todo done x out new = rw (out, new, append_assoc todo done (x ∷ [])) refl

  search_stop :
      (fuel : ℕ) (seen items : List String) (x : String)
      → contains available x ≡ false
      → contains seen x ≡ true
      → search_from (suc fuel) available seen (x ∷ items) ≡ some (ok (none, items ++ (x ∷ [])))
  unfolding search_from
  search_stop fuel seen items x out old = rw (out, old) refl

  search_find :
      (fuel : ℕ) (seen items : List String) (x : String)
      → contains available x ≡ true
      → search_from (suc fuel) available seen (x ∷ items) ≡ some (ok (some x, items ++ (x ∷ [])))
  unfolding search_from
  search_find fuel seen items x m = rw m refl

  -- `todo` is still to come and `done` has come, of all the items.
  search-Chosen :
      (fuel : ℕ) (seen todo done : List String)
      → length todo < fuel
      → Distinct todo
      → Fresh todo seen
      → AllIn done seen
      → NoneIn done available
      → all ≡ done ++ todo
      → 0 < length all
      → (o : Option String) × (after : List String) × (search_from fuel available seen
            (todo ++ done)
          ≡ some (ok (o, after)))
        × Chosen available all o after
  search-Chosen zero seen todo done f d n i u e p = absurd (omega arith)
  search-Chosen (suc fuel) seen [] [] f d n i u e p =
      absurd (let q : 0 < length {A = String} ([] ++ []) = rw e at p in omega (arith, q))
  search-Chosen (suc fuel) seen [] (x ∷ done) f d n i u e p = (
    none,
    done ++ (x ∷ []),
    search_stop fuel seen done x u.0 i.0,
    rw e (NoneIn-append (x ∷ done) [] available u tt),
  )
  search-Chosen (suc fuel) seen (x ∷ todo) done f d n i u e p =
      elim (Bool-cases (contains available x)) [
        | inl member ↦ (
          some x,
          (todo ++ done) ++ (x ∷ []),
          search_find fuel seen (todo ++ done) x member,
          (done, todo, e, u, member, refl),
        )
        | inr out ↦
            let (o, after, result, chosen) =
              search-Chosen fuel (x ∷ seen) todo (done ++ (x ∷ [])) (omega arith) d.1
                (Fresh-cons todo seen x d.0 n.1) (AllIn-append done seen x i)
                (NoneIn-append done (x ∷ []) available u (out, tt))
                (e ∙ sym (append_assoc done (x ∷ []) todo)) p in
            (o, after, search_skip fuel seen todo done x out n.0 ∙ result, chosen)
      ]

Fresh-nil : (xs : List String) → Fresh xs []
Fresh-nil [] = tt
Fresh-nil (x ∷ xs) = (refl, Fresh-nil xs)

schedule_search :
    (available cycler : List String)
    → is_empty available ≡ false
    → schedule (some available) cycler ≡ search_from (length cycler + 1) available [] cycler
unfolding schedule
schedule_search available cycler h = rw h refl

-- With some instance available and a cycler of distinct items, the loop ends within its rounds: it
-- chooses the next available item, which then comes last in the cycler, and nothing exactly when no
-- item is available.
pub schedule-Chosen :
    (available cycler : List String)
    → is_empty available ≡ false
    → Distinct cycler
    → 0 < length cycler
    → (o : Option String) × (after : List String) × (schedule (some available) cycler
        ≡ some (ok (o, after)))
      × Chosen available cycler o after
schedule-Chosen available cycler h d p =
    let (o, after, result, chosen) =
      search-Chosen available cycler (length cycler + 1) [] cycler [] (omega arith) d
        (Fresh-nil cycler) tt tt refl p in
    (o, after, schedule_search available cycler h ∙ rw (append-nil cycler) at result, chosen)

-- Calls of `schedule` without a registry, one after the other.
unfoldable pub turns : ℕ → List String → Option (List (Option String) × List String)
unfolding schedule
turns zero cycler = some ([], cycler)
turns (suc n) cycler = elim (schedule none cycler) [
  | some (ok (chosen, cycler')) ↦ elim (turns n cycler') [
    | some (rest, last) ↦ some (chosen ∷ rest, last)
    | none ↦ none
  ]
  | some (raise e) ↦ none
  | none ↦ none
]

turns_from :
    (todo done : List String)
    → turns (length todo) (todo ++ done) ≡ some (map some todo, done ++ todo)
unfolding turns
turns_from [] done = rw (append-nil done) refl
turns_from (x ∷ todo) done =
    rw
      (
        append_assoc todo done (x ∷ []),
        turns_from todo (done ++ (x ∷ [])),
        append_assoc done (x ∷ []) todo,
      )
      refl

-- Without a registry a full round of calls returns each instance of the cycler once, in order, and
-- leaves the cycler as it was.
pub turns_round :
    (cycler : List String) → turns (length cycler) cycler ≡ some (map some cycler, cycler)
turns_round cycler = rw (append-nil cycler) at (turns_from cycler [])
