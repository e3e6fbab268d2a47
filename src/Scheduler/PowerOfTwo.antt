-- ===== src/Scheduler/PowerOfTwo.antt =====
-- xpyd/scheduler/power_of_two.py. `random.sample(workers, 2)` is the argument `sample`: what it
-- drew from the list. The cycler, which the policy ignores, is left out.
pub mod Choice
pub mod Pool
use micro_pdproxy.Base.{
  ℕ, ◌+◌, ◌-◌, String, Bool, true, false, not, Option, none, some, List, [], ◌∷◌, ◌++◌, ltb, leb,
  ◌==◌, if◌then◌else◌, sorted, set_of, get_or_else,
}
use micro_pdproxy.Base.Dict
use micro_pdproxy.Base.Dict.{Dict}
use micro_pdproxy.Registry
use micro_pdproxy.Registry.{InstanceRegistry}

pub record PowerOfTwoPolicy : Type 0 where
  pub workers : List String
  pub load : Dict ℕ
  pub last_pair : List String

-- {w: 0 for w in workers}
zero_loads : Dict ℕ → List String → Dict ℕ
zero_loads loads [] = loads
zero_loads loads (w ∷ ws) = zero_loads (Dict.set loads w 0) ws

-- __init__
unfoldable pub init : List String → PowerOfTwoPolicy
unfolding zero_loads
init workers = record { workers = workers; load = zero_loads [] workers; last_pair = [] }

unfoldable pub set_load : String → ℕ → PowerOfTwoPolicy → PowerOfTwoPolicy
set_load worker load p = record p { load = Dict.set p.load worker load }

-- loads.get(worker, 0)
unfoldable pub load_of : Dict ℕ → String → ℕ
load_of loads worker = get_or_else (Dict.get loads worker) 0

unfoldable pub get_load : String → PowerOfTwoPolicy → ℕ
unfolding load_of
get_load worker p = load_of p.load worker

unfoldable pub add_worker : String → PowerOfTwoPolicy → PowerOfTwoPolicy
add_worker addr p =
    if Dict.has p.load addr
    then p
    else record p { workers = p.workers ++ (addr ∷ []); load = Dict.set p.load addr 0 }

-- [w for w in workers if w != addr]
unfoldable pub others : String → List String → List String
others addr [] = []
others addr (w ∷ ws) = if w == addr then others addr ws else w ∷ others addr ws

unfoldable pub remove_worker : String → PowerOfTwoPolicy → PowerOfTwoPolicy
unfolding others
remove_worker addr p =
    if Dict.has p.load addr
    then record p { workers = others addr p.workers; load = Dict.delete p.load addr }
    else p

-- The one of the pair with fewer active requests, the first if they are equal.
unfoldable pub lighter : Dict ℕ → String × String → String
unfolding load_of
lighter loads (a, b) = if leb (load_of loads a) (load_of loads b) then a else b

abbrev bump : String → Dict ℕ → Dict ℕ
bump worker loads = Dict.set loads worker (load_of loads worker + 1)

abbrev pub pair_list : String × String → List String
pair_list (a, b) = a ∷ b ∷ []

pub pick :
    (List String → String × String)
    → List String
    → PowerOfTwoPolicy
    → PowerOfTwoPolicy × Option String
unfolding lighter
pick sample [] p = (p, none)
pick sample (w ∷ []) p = (record p { last_pair = w ∷ []; load = bump w p.load }, some w)
pick sample (w ∷ x ∷ ws) p =
    let pair = sample (w ∷ x ∷ ws) in
    let selected = lighter p.load pair in
    (record p { last_pair = pair_list pair; load = bump selected p.load }, some selected)

unfoldable pub select :
    (List String → String × String) → PowerOfTwoPolicy → PowerOfTwoPolicy × Option String
unfolding pick
select sample p = pick sample p.workers p

pick_from :
    (List String → String × String)
    → Dict ℕ
    → List String
    → PowerOfTwoPolicy
    → PowerOfTwoPolicy × Option String
unfolding lighter
pick_from sample loads [] p = (p, none)
pick_from sample loads (w ∷ []) p = (record p { last_pair = w ∷ [] }, some w)
pick_from sample loads (w ∷ x ∷ ws) p =
    let pair = sample (w ∷ x ∷ ws) in
    (record p { last_pair = pair_list pair }, some (lighter loads pair))

-- `loads` is `None` where the policy's own loads are to be used.
unfoldable pub select_from :
    (List String → String × String)
    → List String
    → Option (Dict ℕ)
    → PowerOfTwoPolicy
    → PowerOfTwoPolicy × Option String
unfolding pick_from
select_from sample candidates loads p =
    pick_from sample (get_or_else loads p.load) (sorted candidates) p

-- {worker: registry.get_active_requests(worker) for worker in available}
unfoldable pub active_loads : InstanceRegistry → List String → Dict ℕ
active_loads r [] = []
active_loads r (w ∷ ws) = Dict.set (active_loads r ws) w (Registry.get_active_requests w r)

-- `schedule` with a registry: the registry comes back, since asking it may move breakers.
unfoldable pub schedule_with :
    (List String → String × String)
    → (String → ℕ)
    → Bool
    → String
    → InstanceRegistry
    → PowerOfTwoPolicy
    → InstanceRegistry × PowerOfTwoPolicy × Option String
unfolding select_from active_loads
schedule_with sample clock is_prompt model r p =
    let (r', available) =
      Registry.get_available_instances clock (if is_prompt then "prefill" else "decode") model r in
    let (p', chosen) = select_from sample (set_of available) (some (active_loads r' available)) p in
    (r', p', chosen)

-- `decode_instance or prefill_instance`, and `if addr`
abbrev pub truthy : Option String → Option String → Option String
truthy none other = other
truthy (some a) other = if a == "" then other else some a

completed : Option String → PowerOfTwoPolicy → PowerOfTwoPolicy
completed none p = p
completed (some addr) p =
    if ltb 0 (get_or_else (Dict.get p.load addr) 0)
    then record p { load = Dict.set p.load addr (get_or_else (Dict.get p.load addr) 0 - 1) }
    else p

unfoldable pub schedule_completion :
    Option String → Option String → PowerOfTwoPolicy → PowerOfTwoPolicy
unfolding completed
schedule_completion prefill_instance decode_instance p =
    completed (truthy (truthy decode_instance prefill_instance) none) p
