-- ===== src/Scheduler/PowerOfTwo/Pool.antt =====
-- xpyd/scheduler/power_of_two.py: the workers and the keys of the loads are the same, and a load is
-- what was counted up and down.
use micro_pdproxy.Base.{
  ℕ, ◌+◌, ◌-◌, ◌≡◌, refl, String, true, false, not, ◌&&◌, Option, none, some, List, [], ◌∷◌, ◌++◌,
  contains, Distinct, arith, ◌==◌, if◌then◌else◌, Bool-cases, Option-cases, ltb, inl, inr,
}
use micro_pdproxy.Base.Dict
use micro_pdproxy.Base.Dict.{Dict}
use micro_pdproxy.Scheduler.PowerOfTwo.{
  PowerOfTwoPolicy, load_of, add_worker, others, remove_worker, lighter, pick, select,
  schedule_completion, completed, truthy, pair_list,
}
use micro_pdproxy.Scheduler.PowerOfTwo.Choice.{Draws, pick-Picked}

pub record IsValid (p : PowerOfTwoPolicy) : Type 0 where
  pub distinct : Distinct p.workers
  pub keys_distinct : Distinct (Dict.keys p.load)
  pub tracked : (w : String) → Dict.has p.load w ≡ contains p.workers w

contains-snoc :
    (xs : List String) (a b : String)
    → contains (xs ++ (a ∷ [])) b ≡ (if contains xs b then true else a == b)
contains-snoc [] a b = ground arith
contains-snoc (x ∷ xs) a b = ground (arith, contains-snoc xs a b)

Distinct-snoc :
    (xs : List String) (a : String)
    → contains xs a ≡ false
    → Distinct xs
    → Distinct (xs ++ (a ∷ []))
Distinct-snoc [] a n d = (refl, tt)
Distinct-snoc (x ∷ xs) a n d = ground (arith, Distinct-snoc xs a, contains-snoc xs a x)

contains-others :
    (a : String) (xs : List String) (b : String)
    → contains (others a xs) b ≡ (not (a == b) && contains xs b)
unfolding others
contains-others a [] b = ground arith
contains-others a (x ∷ xs) b = ground (arith, contains-others a xs b)

others-Distinct : (a : String) (xs : List String) → Distinct xs → Distinct (others a xs)
unfolding others
others-Distinct a [] d = tt
others-Distinct a (x ∷ xs) d = ground (arith, others-Distinct a xs d.1, contains-others a xs x)

has-delete :
    {V : Type 0} (d : Dict V) (k j : String)
    → Distinct (Dict.keys d)
    → Dict.has (Dict.delete d k) j ≡ (not (k == j) && Dict.has d j)
unfolding Dict.has Dict.delete
has-delete [] k j h = ground arith
has-delete ((i, w) ∷ d) k j h = ground (arith, has-delete d k j h.1, Dict.has-eq-contains d i)

add_worker-IsValid : (a : String) (p : PowerOfTwoPolicy) → IsValid p → IsValid (add_worker a p)
unfolding add_worker
add_worker-IsValid a p v = elim (Bool-cases (Dict.has p.load a)) [
  | inl old ↦ rw old v
  | inr new ↦ rw new (record {
    distinct = Distinct-snoc p.workers a (ground (arith, v.tracked a)) v.distinct;
    keys_distinct = Dict.set-Distinct p.load a 0 v.keys_distinct;
    tracked =
        λ w. ground (arith, Dict.has-set p.load a w 0, contains-snoc p.workers a w, v.tracked w);
  })
]

remove_worker-IsValid :
    (a : String) (p : PowerOfTwoPolicy) → IsValid p → IsValid (remove_worker a p)
unfolding remove_worker
remove_worker-IsValid a p v = elim (Bool-cases (Dict.has p.load a)) [
  | inr absent ↦ rw absent v
  | inl present ↦ rw present (record {
    distinct = others-Distinct a p.workers v.distinct;
    keys_distinct = Dict.delete-Distinct p.load a v.keys_distinct;
    tracked = λ w.
        ground (
          arith,
          has-delete p.load a w v.keys_distinct,
          contains-others a p.workers w,
          v.tracked w,
        );
  })
]

bump-IsValid :
    (p : PowerOfTwoPolicy) (w : String) (n : ℕ) (last : List String)
    → IsValid p
    → contains p.workers w ≡ true
    → IsValid (record p { last_pair = last; load = Dict.set p.load w n })
bump-IsValid p w n last v m = record {
  distinct = v.distinct;
  keys_distinct = Dict.set-Distinct p.load w n v.keys_distinct;
  tracked = λ x. ground (arith, Dict.has-set p.load w x n, v.tracked x);
}

select-IsValid :
    (sample : List String → String × String) (ws : List String) (p : PowerOfTwoPolicy)
    → Draws sample
    → ((w : String) → contains ws w ≡ true → contains p.workers w ≡ true)
    → IsValid p
    → IsValid (pick sample ws p).0
unfolding pick
select-IsValid sample [] p d sub v = v
select-IsValid sample (w ∷ []) p d sub v =
    bump-IsValid p w (load_of p.load w + 1) (w ∷ []) v (sub w (ground arith))
select-IsValid sample (w ∷ x ∷ ws) p d sub v =
    let pair = sample (w ∷ x ∷ ws) in
    let selected = lighter p.load pair in
    bump-IsValid p selected (load_of p.load selected + 1) (pair_list pair) v
      (sub selected (ground (arith, (pick-Picked sample (w ∷ x ∷ ws) p d).0)))

completed-IsValid : (o : Option String) (p : PowerOfTwoPolicy) → IsValid p → IsValid (completed o p)
unfolding completed
completed-IsValid none p v = v
completed-IsValid (some a) p v = elim (Option-cases (Dict.get p.load a)) [
  | inl missing ↦ rw missing v
  | inr (n, found) ↦
      let keep =
        bump-IsValid p a (n - 1) p.last_pair v
          (ground (arith, Dict.has_of-get p.load a n found, v.tracked a)) in
      rw found (elim (Bool-cases (ltb 0 n)) [ inl busy ↦ rw busy keep | inr idle ↦ rw idle v ])
]

-- The calls that change the pool or the loads.
pub data Call : Type 0 where
  add : String → Call
  remove : String → Call
  select_by : (List String → String × String) → Call
  complete : Option String → Option String → Call

unfoldable pub step : PowerOfTwoPolicy → Call → PowerOfTwoPolicy
unfolding schedule_completion
step p (add a) = add_worker a p
step p (remove a) = remove_worker a p
step p (select_by sample) = (select sample p).0
step p (complete prefill decode) = schedule_completion prefill decode p

unfoldable pub run : PowerOfTwoPolicy → List Call → PowerOfTwoPolicy
run p [] = p
run p (c ∷ calls) = run (step p c) calls

-- Every selection among the calls draws from its list.
abbrev pub AllDraw : List Call → Type 0
AllDraw [] = Unit
AllDraw (add a ∷ calls) = AllDraw calls
AllDraw (remove a ∷ calls) = AllDraw calls
AllDraw (select_by sample ∷ calls) = Draws sample × AllDraw calls
AllDraw (complete prefill decode ∷ calls) = AllDraw calls

-- Whatever workers join and leave and whatever requests are placed and completed, no worker is
-- listed twice, and the loads are kept of exactly the workers listed.
pub power_run-IsValid :
    (p : PowerOfTwoPolicy) (calls : List Call) → AllDraw calls → IsValid p → IsValid (run p calls)
unfolding run step
power_run-IsValid p [] d v = v
power_run-IsValid p (add a ∷ calls) d v =
    power_run-IsValid (add_worker a p) calls d (add_worker-IsValid a p v)
power_run-IsValid p (remove a ∷ calls) d v =
    power_run-IsValid (remove_worker a p) calls d (remove_worker-IsValid a p v)
power_run-IsValid p (select_by sample ∷ calls) d v =
    power_run-IsValid (select sample p).0 calls d.1
      (unfold select in select-IsValid sample p.workers p d.0 (λ w m. m) v)
power_run-IsValid p (complete prefill decode ∷ calls) d v =
    power_run-IsValid (schedule_completion prefill decode p) calls d
      (unfold schedule_completion in completed-IsValid (truthy (truthy decode prefill) none) p v)
