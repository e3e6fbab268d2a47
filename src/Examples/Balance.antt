-- ===== src/Examples/Balance.antt =====
-- Concrete runs of the other schedulers (xpyd/scheduler/round_robin.py, load_balanced.py and
-- power_of_two.py).
use micro_pdproxy.Base.{
  ◌+◌, ◌≡◌, refl, String, Option, none, some, List, [], ◌∷◌, arith, if◌then◌else◌, ok,
  string_discrete, length,
}
use micro_pdproxy.Base.Dict
use micro_pdproxy.Base.Int.{pos}
use micro_pdproxy.Scheduler.RoundRobin.{schedule}
use micro_pdproxy.Scheduler.RoundRobin.Order.{Chosen, schedule-Chosen}
use micro_pdproxy.Scheduler.LoadBalanced.{Pool, schedule_prefill}
use micro_pdproxy.Scheduler.LoadBalanced.Candidates.{IsValid, candidates}
use micro_pdproxy.Base.{replicate}
use micro_pdproxy.Scheduler.LoadBalanced.{book, complete as complete_on, all_zero}
use micro_pdproxy.Scheduler.LoadBalanced.Completion.{book_complete_lem}
use micro_pdproxy.Scheduler.LoadBalanced.{schedule_decode}
use micro_pdproxy.Scheduler.LoadBalanced.DecodeLeast.{FewestBooked, schedule_decode_lem}
use micro_pdproxy.Scheduler.LoadBalanced.Least.{LeastBooked, schedule_prefill_lem}
use micro_pdproxy.Scheduler.PowerOfTwo.{PowerOfTwoPolicy, init}
use micro_pdproxy.Scheduler.PowerOfTwo.Choice.{Draws}
use micro_pdproxy.Scheduler.PowerOfTwo.Pool as Pools
use micro_pdproxy.Scheduler.PowerOfTwo.Pool.{
  Call, add, remove, select_by, complete, run, AllDraw, power_run-IsValid,
}

abbrev addresses : List String
addresses = "a" ∷ "b" ∷ "c" ∷ []

schedule-Chosen_example :
    (o : Option String) × (after : List String) × (schedule (some ("b" ∷ [])) addresses
      ≡ some (ok (o, after)))
    × Chosen ("b" ∷ []) addresses o after
unfolding string_discrete
schedule-Chosen_example =
    schedule-Chosen ("b" ∷ []) addresses refl (refl, (refl, (refl, tt))) (omega arith)

abbrev pool : Pool
pool = record {
  instances = addresses;
  utils = pos 7 ∷ pos 3 ∷ pos 0 ∷ [];
  bs = 1 ∷ 1 ∷ 0 ∷ [];
  model_len = 100 ∷ 100 ∷ 10 ∷ [];
  schedule_index = 0;
  completion_index = 0;
}

pool-IsValid : IsValid pool
pool-IsValid = record { utils_length = refl; bs_length = refl; model_length = refl }

schedule_prefill_lem_example :
    (r : Pool × Option String) × (schedule_prefill none 20 30 pool ≡ ok r)
    × LeastBooked 20 (candidates none (20 + 30) pool) pool r
schedule_prefill_lem_example = schedule_prefill_lem none 20 30 pool pool-IsValid

-- A draw that takes the first two.
abbrev first_two : List String → String × String
first_two (x ∷ y ∷ xs) = (x, y)
first_two xs = ("", "")

first_two-Draws : Draws first_two
first_two-Draws x y xs = (ground arith, ground arith)

abbrev policy : PowerOfTwoPolicy
policy = init addresses

nobody-IsValid : Pools.IsValid (init [])
unfolding init Dict.has
nobody-IsValid = record { distinct = tt; keys_distinct = tt; tracked = λ w. refl }

power_run-IsValid_example : Pools.IsValid (
    run
      (init [])
      (add "a" ∷ add "b" ∷ select_by first_two ∷ complete none (some "a") ∷ remove "b" ∷ []))
power_run-IsValid_example =
    power_run-IsValid (init [])
      (add "a" ∷ add "b" ∷ select_by first_two ∷ complete none (some "a") ∷ remove "b" ∷ [])
      (first_two-Draws, tt) nobody-IsValid

book_complete_lem_example :
    (q : Pool) × (instance : String) × (r : Pool) × (book 20 1 pool ≡ ok (q, some instance))
    × (complete_on instance 20 q ≡ ok r)
    × (r.bs ≡ pool.bs)
    × (r.utils
        ≡ (if all_zero pool.bs then replicate (length pool.instances) (pos 0) else pool.utils))
unfolding string_discrete
book_complete_lem_example =
    book_complete_lem 20 1 pool pool-IsValid (refl, (refl, (refl, tt))) (omega arith)

schedule_decode_lem_example :
    (r : Pool × Option String) × (schedule_decode none 20 30 pool ≡ ok r)
    × FewestBooked 20 (candidates none (20 + 30) pool) pool r
schedule_decode_lem_example = schedule_decode_lem none 20 30 pool pool-IsValid
