-- ===== src/Proxy/Aggregated.antt =====
-- xpyd/proxy.py: how a request for a model with aggregated instances, which prefill and decode by
-- themselves, is scheduled.
pub mod Bookings
pub mod Least
use micro_pdproxy.Base.{
  ◌>>=◌, ℕ, zero, suc, ◌+◌, ◌-◌, ◌*◌, ◌/◌, ◌%◌, ◌≤◌, ◌<◌, String, ◌≡◌, refl, sym, ap, ◌∙◌, ◌≢◌, ◌↔◌,
  ◌⊎◌, inl, inr, Bool, true, false, not, ◌&&◌, ◌||◌, Option, none, some, List, [], ◌∷◌, ◌++◌, map,
  arith, if◌then◌else◌, ◌==◌, Result, ok, raise, ltb, leb, eqb, length, is_empty, get_elem?,
  contains, Distinct, Option-cases, Result-cases, Bool-cases, if-intro, get_or_else, or_raise,
  index_error, type_error, set_of,
}
use micro_pdproxy.Base.Dict
use micro_pdproxy.Base.Dict.{Dict}
use micro_pdproxy.Base.Action.{Action, resume}
use micro_pdproxy.Registry
use micro_pdproxy.Registry.{InstanceRegistry, InstanceInfo, get_active_requests}
use micro_pdproxy.Scheduler.ConsistentHash as ConsistentHash
use micro_pdproxy.Scheduler.PowerOfTwo as PowerOfTwo
use micro_pdproxy.Scheduler.CacheAware.Policy as CacheAware
use micro_pdproxy.Proxy.Policies.{
  World, Policy, load_balanced, round_robin, consistent_hash, power_of_two, cache_aware,
}
use micro_pdproxy.Proxy.{Proxy, Demand, count_request, uses_round_robin_fallback, with_registry}

-- [info.address for info in infos if info.role == "aggregated" and info.model == model]
abbrev pub discovered : String → List InstanceInfo → List String
discovered model [] = []
discovered model (info ∷ infos) =
    let others = discovered model infos in
    if info.role == "aggregated" && info.model == model then info.address ∷ others else others

abbrev pub configured : String → Proxy → List String
configured model p = get_or_else (Dict.get p.aggregated_instances model) []

-- `discovered`, or what is configured where nothing is
abbrev or_configured : List String → List String → List String
or_configured [] config = config
or_configured (a ∷ others) config = a ∷ others

-- _aggregated_instances_for_model
unfoldable pub aggregated_instances_for_model : World → String → Action Proxy (List String)
aggregated_instances_for_model w model p = elim p.registry [
  | none ↦ (p, ok (configured model p))
  | some r ↦ elim (Registry.get_all_instances w.clock r) [
    | raise e ↦ (p, raise e)
    | ok (r', infos) ↦ (
      record p { registry = some r' },
      ok (or_configured (discovered model infos) (configured model p)),
    )
  ]
]

-- The instances to choose from: those that the registry answers, if there is one.
unfoldable pub available_aggregated : World → String → List String → Action Proxy (List String)
available_aggregated w model instances p = elim p.registry [
  | none ↦ (p, ok instances)
  | some r ↦
      let (r', available) = Registry.get_aggregated_instances w.clock model r in
      (record p { registry = some r' }, ok available)
]

-- The strategies that `schedule_aggregated` tells apart; any other name is scheduled in turn.
pub data Advanced : Type 0 where
  hashed lighter_of_two cached : Advanced

pub data Strategy : Type 0 where
  least_loaded in_turn : Strategy
  advanced : Advanced → Strategy

-- The aliases, and then the tests on the name.
abbrev pub strategy_named : String → Strategy
strategy_named name =
    if name == "loadbalanced" || name == "load_balanced"
    then least_loaded
    else if name == "consistent_hash"
    then advanced hashed
    else if name == "power_of_two"
    then advanced lighter_of_two
    else if name == "cache_aware"
    then advanced cached
    else in_turn

-- The fallback to the type of the global policy.
abbrev pub strategy_of : Policy → Strategy
strategy_of (load_balanced s) = least_loaded
strategy_of round_robin = in_turn
strategy_of (consistent_hash p) = advanced hashed
strategy_of (power_of_two p) = advanced lighter_of_two
strategy_of (cache_aware p) = advanced cached

unfoldable pub strategy_for : String → Proxy → Strategy
unfolding uses_round_robin_fallback
strategy_for model p =
    let name =
      if uses_round_robin_fallback model p
      then "roundrobin"
      else get_or_else (Dict.get p.model_schedulers model) "" in
    if name == "" then strategy_of p.scheduling_policy else strategy_named name

-- _schedule_aggregated_load_balanced: the rest of the loop, with the best so far and its load
unfoldable pub best_of : InstanceRegistry → String → ℕ → List String → String
best_of r best best_load [] = best
best_of r best best_load (addr ∷ addrs) =
    let load = get_active_requests addr r in
    if ltb load best_load then best_of r addr load addrs else best_of r best best_load addrs

unfoldable pub schedule_aggregated_load_balanced :
    Option InstanceRegistry → List String → Result String
unfolding best_of
schedule_aggregated_load_balanced registry [] = raise index_error
schedule_aggregated_load_balanced none (a ∷ others) = ok a
schedule_aggregated_load_balanced (some r) (a ∷ others) =
    if is_empty others then ok a else ok (best_of r a (get_active_requests a r) others)

-- `default_registry.create` for a strategy, with the defaults of its constructor
abbrev pub create : World → Advanced → List String → Policy
create w hashed workers = consistent_hash (ConsistentHash.init w.vnode_hash workers 160)
create w lighter_of_two workers = power_of_two (PowerOfTwo.init workers)
create w cached workers = cache_aware (CacheAware.cache_aware w.cache_hash workers 256)

-- _get_aggregated_policy; a policy that was created is kept.
abbrev pub get_aggregated_policy : World → String → Advanced → List String → Proxy → Policy
get_aggregated_policy w model strategy instances p =
    get_or_else (Dict.get p.aggregated_policies model) (create w strategy instances)

-- The loads that `power_of_two` is given.
abbrev loads_of : Option InstanceRegistry → List String → Option (Dict ℕ)
loads_of none available = none
loads_of (some r) available = some (PowerOfTwo.active_loads r available)

-- `select_from` of the policy; one of another class refuses the arguments.
abbrev pub select_from :
    World
    → Option InstanceRegistry
    → List String
    → Demand
    → Advanced
    → Policy
    → Result (Policy × Option String)
select_from w registry available d hashed (consistent_hash p) =
    ConsistentHash.select_from w.key_hash (set_of available) d.context p >>= λ selected.
    ok (consistent_hash p, selected)
select_from w registry available d lighter_of_two (power_of_two p) =
    let (p', selected) =
      PowerOfTwo.select_from w.sample (set_of available) (loads_of registry available) p in
    ok (power_of_two p', selected)
select_from w registry available d cached (cache_aware p) =
    CacheAware.policy_select_from w.tokenize w.hash_of (set_of available) d.prompt p >>= λ selected.
    ok (cache_aware p, selected)
select_from w registry available d strategy policy = raise type_error

-- idx = counters.get(model, 0) % len(available)
abbrev pub turn : String → List String → Proxy → ℕ
turn model available p = get_or_else (Dict.get p.aggregated_rr_counters model) 0 % length available

-- The policy that is kept for the model, as its selection left it.
abbrev pub keep_policy :
    String → Policy → Result (Policy × Option String) → Action Proxy (Option String)
keep_policy model policy (raise e) p =
    (record p { aggregated_policies = Dict.set p.aggregated_policies model policy }, raise e)
keep_policy model policy (ok (policy', selected)) p =
    (record p { aggregated_policies = Dict.set p.aggregated_policies model policy' }, ok selected)

-- The branches of `schedule_aggregated`, with instances to choose from.
unfoldable pub select_aggregated :
    World → Strategy → List String → List String → Demand → Action Proxy (Option String)
unfolding schedule_aggregated_load_balanced
select_aggregated w least_loaded instances available d p =
    (p, schedule_aggregated_load_balanced p.registry available >>= λ a. ok (some a))
select_aggregated w (advanced strategy) instances available d p =
    let policy = get_aggregated_policy w d.model strategy instances p in
    keep_policy d.model policy (select_from w p.registry available d strategy policy) p
select_aggregated w in_turn instances available d p =
    let idx = turn d.model available p in
    (
      record p { aggregated_rr_counters = Dict.set p.aggregated_rr_counters d.model (idx + 1) },
      or_raise index_error (get_elem? available idx) >>= λ a. ok (some a),
    )

-- The choice among the available instances, before it is counted.
abbrev pub choose_aggregated :
    World → Demand → List String → List String → Action Proxy (Option String)
choose_aggregated w d instances available p =
    if is_empty available
    then (p, ok none)
    else select_aggregated w (strategy_for d.model p) instances available d p

abbrev pub from_instances : World → Demand → List String → Action Proxy (Option String)
from_instances w d instances p =
    if is_empty instances
    then (p, ok none)
    else resume (available_aggregated w d.model instances p) (choose_aggregated w d instances)

unfoldable pub schedule_aggregated : World → Demand → Action Proxy (Option String)
unfolding aggregated_instances_for_model available_aggregated select_aggregated strategy_for
    count_request
schedule_aggregated w d p =
    resume (resume (aggregated_instances_for_model w d.model p) (from_instances w d)) count_request

unfoldable pub schedule_aggregated_completion : String → Action Proxy Unit
unfolding with_registry
schedule_aggregated_completion instance =
    with_registry (Registry.decrement_active_requests instance)
