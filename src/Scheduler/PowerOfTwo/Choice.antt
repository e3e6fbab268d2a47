-- ===== src/Scheduler/PowerOfTwo/Choice.antt =====
-- xpyd/scheduler/power_of_two.py: whom the policy selects.
use micro_pdproxy.Base.{
  ℕ, ◌+◌, ◌≤◌, ◌≡◌, refl, String, Bool, true, false, Option, none, some, List, [], ◌∷◌, contains,
  sorted, leb, arith, ◌==◌, inl, inr, get_or_else, if◌then◌else◌, Bool-cases,
}
use micro_pdproxy.Base.Dict
use micro_pdproxy.Base.Dict.{Dict}
use micro_pdproxy.Scheduler.PowerOfTwo.{
  PowerOfTwoPolicy, load_of, lighter, pick, select, pick_from, select_from,
}

-- `random.sample(xs, 2)` draws elements of a list of two or more.
abbrev pub Draws : (List String → String × String) → Type 0
Draws sample =
    (x y : String) (xs : List String)
    → (contains (x ∷ y ∷ xs) (sample (x ∷ y ∷ xs)).0 ≡ true)
      × (contains (x ∷ y ∷ xs) (sample (x ∷ y ∷ xs)).1 ≡ true)

lighter_lem :
    (loads : Dict ℕ) (pair : String × String) (xs : List String)
    → contains xs pair.0 ≡ true
    → contains xs pair.1 ≡ true
    → (contains xs (lighter loads pair) ≡ true)
      × (load_of loads (lighter loads pair) ≤ load_of loads pair.0)
      × (load_of loads (lighter loads pair) ≤ load_of loads pair.1)
unfolding lighter
lighter_lem loads (a, b) xs h k = elim (Bool-cases (leb (load_of loads a) (load_of loads b))) [
  | inl le ↦ rw le (h, omega arith, ground arith)
  | inr gt ↦ rw gt (k, ground arith, omega arith)
]

-- Every worker of the list has at least the load.
abbrev pub AtMost : Dict ℕ → ℕ → List String → Type 0
AtMost loads n [] = Unit
AtMost loads n (x ∷ xs) = (n ≤ load_of loads x) × AtMost loads n xs

-- The outcome of a selection among workers: one of them, which has no more load than those
-- considered, and one more request than before; of no worker, none.
abbrev pub Picked : List String → Dict ℕ → PowerOfTwoPolicy × Option String → Type 0
Picked workers loads (q, none) = workers ≡ []
Picked workers loads (q, some w) =
    (contains workers w ≡ true) × AtMost loads (load_of loads w) q.last_pair

pub pick-Picked :
    (sample : List String → String × String) (ws : List String) (p : PowerOfTwoPolicy)
    → Draws sample
    → Picked ws p.load (pick sample ws p)
unfolding pick
pick-Picked sample [] p d = refl
pick-Picked sample (w ∷ []) p d = ground arith
pick-Picked sample (w ∷ x ∷ ws) p d =
    let (m, n) = d w x ws in
    let (c, le, le') = lighter_lem p.load (sample (w ∷ x ∷ ws)) (w ∷ x ∷ ws) m n in
    (c, (le, (le', tt)))

pick_from-Picked :
    (sample : List String → String × String) (loads : Dict ℕ) (ws : List String)
    (p : PowerOfTwoPolicy)
    → Draws sample
    → Picked ws loads (pick_from sample loads ws p)
unfolding pick_from
pick_from-Picked sample loads [] p d = refl
pick_from-Picked sample loads (w ∷ []) p d = ground arith
pick_from-Picked sample loads (w ∷ x ∷ ws) p d =
    let (m, n) = d w x ws in
    let (c, le, le') = lighter_lem loads (sample (w ∷ x ∷ ws)) (w ∷ x ∷ ws) m n in
    (c, (le, (le', tt)))

-- The worker is the one chosen.
abbrev pub chose : Option String → String → Bool
chose none x = false
chose (some w) x = w == x

pick-load :
    (sample : List String → String × String) (ws : List String) (p : PowerOfTwoPolicy) (x : String)
    → load_of (pick sample ws p).0.load x
      ≡ (if chose (pick sample ws p).1 x then load_of p.load x + 1 else load_of p.load x)
unfolding pick load_of
pick-load sample [] p x = refl
pick-load sample (v ∷ []) p x = ground (arith, Dict.get-set p.load v x (load_of p.load v + 1))
pick-load sample (v ∷ y ∷ ws) p x =
    let selected = lighter p.load (sample (v ∷ y ∷ ws)) in
    ground (arith, Dict.get-set p.load selected x (load_of p.load selected + 1))

-- `select` returns a worker of the pool, none only if there is none; the worker has no more load
-- than the pair that was drawn, its load grows by one, and no other load changes.
pub select_lem :
    (sample : List String → String × String) (p : PowerOfTwoPolicy) (x : String)
    → Draws sample
    → Picked p.workers p.load (select sample p)
      × (load_of (select sample p).0.load x
          ≡ (if chose (select sample p).1 x then load_of p.load x + 1 else load_of p.load x))
unfolding select
select_lem sample p x d = (pick-Picked sample p.workers p d, pick-load sample p.workers p x)

pick_from-load :
    (sample : List String → String × String) (loads : Dict ℕ) (ws : List String)
    (p : PowerOfTwoPolicy)
    → (pick_from sample loads ws p).0.load ≡ p.load
unfolding pick_from
pick_from-load sample loads [] p = refl
pick_from-load sample loads (w ∷ []) p = refl
pick_from-load sample loads (w ∷ x ∷ ws) p = refl

-- `select_from` returns a candidate, none only if there is no candidate; it has no more load, by the
-- loads given or by the policy's own, than the pair that was drawn, and no load changes.
pub select_from_lem :
    (sample : List String → String × String) (candidates : List String) (loads : Option (Dict ℕ))
    (p : PowerOfTwoPolicy)
    → Draws sample
    → Picked (sorted candidates) (get_or_else loads p.load) (select_from sample candidates loads p)
      × ((select_from sample candidates loads p).0.load ≡ p.load)
unfolding select_from
select_from_lem sample candidates loads p d = (
  pick_from-Picked sample (get_or_else loads p.load) (sorted candidates) p d,
  pick_from-load sample (get_or_else loads p.load) (sorted candidates) p,
)
