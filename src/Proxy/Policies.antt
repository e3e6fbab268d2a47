-- ===== src/Proxy/Policies.antt =====
-- xpyd/proxy.py and xpyd/scheduler: the policies behind one interface. `World` is what a call gets
-- from outside: the clock, the random draw and the hashes. A policy asks the registry for the
-- instances of the role and the model first, so `choose` takes the answer.
use micro_pdproxy.Base.{
  ℕ, String, Bool, Option, none, some, List, [], ◌∷◌, set_of, Result, ok, raise, or_raise,
  runtime_error, ◌>>=◌,
}
use micro_pdproxy.Registry.{InstanceRegistry}
use micro_pdproxy.Scheduler.LoadBalanced as LoadBalanced
use micro_pdproxy.Scheduler.LoadBalanced.{LoadBalancedScheduler}
use micro_pdproxy.Scheduler.RoundRobin as RoundRobin
use micro_pdproxy.Scheduler.ConsistentHash as ConsistentHash
use micro_pdproxy.Scheduler.ConsistentHash.{ConsistentHashPolicy, Context}
use micro_pdproxy.Scheduler.PowerOfTwo as PowerOfTwo
use micro_pdproxy.Scheduler.PowerOfTwo.{PowerOfTwoPolicy}
use micro_pdproxy.Scheduler.CacheAware.Policy as CacheAware
use micro_pdproxy.Scheduler.CacheAware.Policy.{CacheAwarePolicy}

pub record World : Type 0 where
  pub clock : String → ℕ
  pub sample : List String → String × String
  pub vnode_hash : String → ℕ → ℕ
  pub key_hash : String → ℕ
  pub cache_hash : String → ℕ → ℕ
  pub tokenize : String → List String
  pub hash_of : List String → ℕ

pub data Policy : Type 0 where
  load_balanced : LoadBalancedScheduler → Policy
  round_robin : Policy
  consistent_hash : ConsistentHashPolicy → Policy
  power_of_two : PowerOfTwoPolicy → Policy
  cache_aware : CacheAwarePolicy → Policy

-- ConsistentHashPolicy.schedule
abbrev pub choose_hash :
    World → Context → Option (List String) → ConsistentHashPolicy → Result (Option String)
choose_hash w context none p = ConsistentHash.select w.key_hash context p
choose_hash w context (some []) p = ok none
choose_hash w context (some (a ∷ others)) p =
    ConsistentHash.select_from w.key_hash (set_of (a ∷ others)) context p

-- CacheAwarePolicy.schedule
abbrev pub choose_cached :
    World → Option String → Option (List String) → CacheAwarePolicy → Result (Option String)
choose_cached w prompt none p = CacheAware.policy_select w.tokenize w.hash_of prompt p
choose_cached w prompt (some []) p = ok none
choose_cached w prompt (some (a ∷ others)) p =
    CacheAware.policy_select_from w.tokenize w.hash_of (set_of (a ∷ others)) prompt p

-- PowerOfTwoPolicy.schedule; the loads are those of the registry, if there is one.
abbrev pub choose_lighter :
    World
    → Option InstanceRegistry
    → Option (List String)
    → PowerOfTwoPolicy
    → PowerOfTwoPolicy × Option String
choose_lighter w (some r) (some available) p =
    PowerOfTwo.select_from w.sample (set_of available) (some (PowerOfTwo.active_loads r available))
      p
choose_lighter w registry available p = PowerOfTwo.select w.sample p

-- `schedule` of each policy: the policy and the cycler behind it, and the choice.
module _ (w : World) (registry : Option InstanceRegistry) (available : Option (List String)) where
  abbrev pub choose :
      Bool
      → ℕ
      → ℕ
      → Context
      → Option String
      → List String
      → Policy
      → Result (Policy × List String × Option String)
  choose is_prompt request_len max_tokens context prompt cycler (load_balanced s) = do
    (s', chosen) ← LoadBalanced.schedule available is_prompt request_len max_tokens s
    ok (load_balanced s', cycler, chosen)
  choose is_prompt request_len max_tokens context prompt cycler round_robin = do
    answer ← or_raise runtime_error (RoundRobin.schedule available cycler)
    (chosen, cycler') ← answer
    ok (round_robin, cycler', chosen)
  choose is_prompt request_len max_tokens context prompt cycler (consistent_hash p) = do
    chosen ← choose_hash w context available p
    ok (consistent_hash p, cycler, chosen)
  choose is_prompt request_len max_tokens context prompt cycler (power_of_two p) =
      let (p', chosen) = choose_lighter w registry available p in
      ok (power_of_two p', cycler, chosen)
  choose is_prompt request_len max_tokens context prompt cycler (cache_aware p) = do
    chosen ← choose_cached w prompt available p
    ok (cache_aware p, cycler, chosen)

-- schedule_completion of each policy; the base class does nothing.
abbrev pub complete : Option String → Option String → ℕ → Policy → Policy × Result {0} Unit
complete prefill decode req_len (load_balanced s) =
    let (s', error) = LoadBalanced.schedule_completion prefill decode req_len s in
    (load_balanced s', elim error [ none ↦ ok tt | some e ↦ raise e ])
complete prefill decode req_len round_robin = (round_robin, ok tt)
complete prefill decode req_len (consistent_hash p) = (consistent_hash p, ok tt)
complete prefill decode req_len (power_of_two p) =
    (power_of_two (PowerOfTwo.schedule_completion prefill decode p), ok tt)
complete prefill decode req_len (cache_aware p) = (cache_aware p, ok tt)

-- add_worker and remove_worker of the policies that have them
abbrev pub add_worker : World → String → Policy → Policy
add_worker w address (load_balanced s) = load_balanced s
add_worker w address round_robin = round_robin
add_worker w address (consistent_hash p) =
    consistent_hash (ConsistentHash.add_worker w.vnode_hash address p)
add_worker w address (power_of_two p) = power_of_two (PowerOfTwo.add_worker address p)
add_worker w address (cache_aware p) =
    cache_aware (CacheAware.policy_add_worker w.cache_hash address p)

abbrev pub remove_worker : World → String → Policy → Policy
remove_worker w address (load_balanced s) = load_balanced s
remove_worker w address round_robin = round_robin
remove_worker w address (consistent_hash p) =
    consistent_hash (ConsistentHash.remove_worker w.vnode_hash address p)
remove_worker w address (power_of_two p) = power_of_two (PowerOfTwo.remove_worker address p)
remove_worker w address (cache_aware p) = cache_aware (CacheAware.policy_remove_worker address p)

-- Proxy._add_instance_to_policy
abbrev pub add_instance_to_policy : World → String → String → ℕ → Policy → Policy
add_instance_to_policy w role address max_model_len (load_balanced s) =
    load_balanced (LoadBalanced.add_instance_state role max_model_len s)
add_instance_to_policy w role address max_model_len policy = add_worker w address policy

-- Proxy._remove_instance_from_policy
abbrev pub remove_instance_from_policy : World → String → String → ℕ → Policy → Policy
remove_instance_from_policy w role address index (load_balanced s) =
    load_balanced (LoadBalanced.remove_instance_state role index s)
remove_instance_from_policy w role address index policy = remove_worker w address policy
