-- ===== src/Proxy/Members.antt =====
-- xpyd/proxy.py: the addition and the removal of an instance while the proxy runs. The lists of
-- prefill and decode instances are also those of the least-loaded scheduler and of the discovery. An
-- exception inside the `try` block of `add_instance` is an argument: the stage at which it comes, which is before that
-- stage has changed anything.
pub mod View
pub mod Restored
pub mod Lists
pub mod Added
pub mod Entered
pub mod Places
pub mod Drained
pub mod Waits
use micro_pdproxy.Base.{
  ℕ, zero, suc, ◌+◌, ◌-◌, ◌*◌, ◌/◌, ◌%◌, ◌≤◌, ◌<◌, String, ◌≡◌, refl, sym, ap, ◌∙◌, ◌≢◌, ◌↔◌, ◌⊎◌,
  inl, inr, Bool, true, false, not, ◌&&◌, ◌||◌, Option, none, some, List, [], ◌∷◌, ◌++◌, map, arith,
  if◌then◌else◌, ◌==◌, Result, ok, raise, ltb, leb, eqb, length, is_empty, get_elem?, contains,
  Distinct, Option-cases, Result-cases, Bool-cases, if-intro, get_or_else, or_raise, runtime_error,
  value_error, ◌>>=◌, timeout_error,
}
use micro_pdproxy.Base.Action.{Action, resume, fail}
use micro_pdproxy.Base.Dict
use micro_pdproxy.Base.Dict.{Dict}
use micro_pdproxy.Registry as Registry
use micro_pdproxy.Registry.{InstanceRegistry, get_active_requests}
use micro_pdproxy.Scheduler.LoadBalanced as LoadBalanced
use micro_pdproxy.Scheduler.LoadBalanced.{LoadBalancedScheduler, Pool, index_from}
use micro_pdproxy.HealthMonitor as HealthMonitor
use micro_pdproxy.HealthMonitor.{HealthMonitor, remove_first}
use micro_pdproxy.Discovery as Discovery
use micro_pdproxy.Discovery.{NodeDiscovery}
use micro_pdproxy.Proxy.{Proxy, with_registry}
use micro_pdproxy.Proxy.Policies.{
  World, Policy, load_balanced, round_robin, consistent_hash, power_of_two, cache_aware,
  add_instance_to_policy, remove_instance_from_policy, add_worker, remove_worker,
}

-- The scheduler sees what happens to a list of instances that it shares.
abbrev pub share : Bool → List String → Policy → Policy
share true xs (load_balanced s) =
    load_balanced (record s { prefill = record s.prefill { instances = xs } })
share false xs (load_balanced s) =
    load_balanced (record s { decode = record s.decode { instances = xs } })
share b xs policy = policy

-- The list of a role, and for the role "aggregated" of a model.
abbrev pub instances_of : String → String → Proxy → List String
instances_of role model p =
    if role == "aggregated"
    then get_or_else (Dict.get p.aggregated_instances model) []
    else if role == "prefill"
    then p.prefill_instances
    else p.decode_instances

-- The discovery sees what happens to the lists that it shares.
abbrev pub show : Bool → List String → Option NodeDiscovery → Option NodeDiscovery
show b xs none = none
show true xs (some d) = some (record d { prefill_instances = xs })
show false xs (some d) = some (record d { decode_instances = xs })

-- The list after a change, with the cycler that is made of it
abbrev pub put_instances : String → String → List String → Proxy → Proxy
put_instances role model xs p =
    if role == "aggregated"
    then record p { aggregated_instances = Dict.set p.aggregated_instances model xs }
    else if role == "prefill"
    then record p {
      prefill_instances = xs;
      prefill_cycler = xs;
      scheduling_policy = share true xs p.scheduling_policy;
      discovery = show true xs p.discovery;
    }
    else record p {
      decode_instances = xs;
      decode_cycler = xs;
      scheduling_policy = share false xs p.scheduling_policy;
      discovery = show false xs p.discovery;
    }

abbrev pub change_aggregated : String → (Policy → Policy) → Proxy → Proxy
change_aggregated model f p = elim (Dict.get p.aggregated_policies model) [
  | none ↦ p
  | some policy ↦ record p { aggregated_policies = Dict.set p.aggregated_policies model (f policy) }
]

-- The policy that the role asks learns of the instance, and forgets it.
abbrev pub join_policy : World → String → String → String → ℕ → Proxy → Proxy
join_policy w role address model max_model_len p =
    if role == "aggregated" then change_aggregated model (add_worker w address) p else record p {
      scheduling_policy = add_instance_to_policy w role address max_model_len p.scheduling_policy;
    }

abbrev pub leave_policy : World → String → String → String → ℕ → Proxy → Proxy
leave_policy w role address model index p =
    if role == "aggregated" then change_aggregated model (remove_worker w address) p else record p {
      scheduling_policy = remove_instance_from_policy w role address index p.scheduling_policy;
    }

-- `if role == "aggregated" and not instances: self.aggregated_instances.pop(model, None)`
abbrev pub drop_empty : String → String → Proxy → Proxy
drop_empty role model p =
    if role == "aggregated" && is_empty (instances_of role model p)
    then record p { aggregated_instances = Dict.delete p.aggregated_instances model }
    else p

-- The stages of the `try` block that can raise.
pub data Stage : Type 0 where
  at_policy at_monitor at_discovery : Stage

abbrev pub with_monitor : (HealthMonitor → HealthMonitor) → Proxy → Proxy
with_monitor f p = elim p.health_monitor [
  | none ↦ p
  | some m ↦ record p { health_monitor = some (f m) }
]

-- A change of the discovery, of which the second function is what becomes of the list of the role. A
-- list of prefill or decode instances is the proxy's own, so the proxy sees the change, and its
-- cycler, of which nothing has been taken since it was made of the list. The discovery's list of
-- aggregated instances is its own.
abbrev pub with_discovery :
    String → (NodeDiscovery → NodeDiscovery) → (List String → List String) → Proxy → Proxy
with_discovery role f g p = elim p.discovery [
  | none ↦ p
  | some d ↦
      if role == "aggregated"
      then record p { discovery = some (f d) }
      else put_instances role "" (g (instances_of role "" p)) (record p { discovery = some (f d) })
]

-- The monitor and the discovery forget the instance.
abbrev pub forget : String → String → Proxy → Proxy
forget role address p =
    with_monitor (HealthMonitor.remove_node address)
      (with_discovery role (Discovery.remove_instance role address) (remove_first address) p)

-- The `except` clause of `add_instance`, up to the registry. The instance was to be the one at
-- `index`.
unfoldable pub roll_back : World → String → String → String → ℕ → Bool → Proxy → Proxy
roll_back w role address model index policy_added p =
    let p1 = forget role address p in
    let p2 = put_instances role model (remove_first address (instances_of role model p1)) p1 in
    let p3 = if policy_added then leave_policy w role address model index p2 else p2 in
    drop_empty role model p3

-- The `try` block, with its `except` clause up to the registry
unfoldable pub join : World → String → String → String → ℕ → Option Stage → Action Proxy Unit
unfolding roll_back
join w role address model max_model_len fault p =
    let index = length (instances_of role model p) in
    let p1 = join_policy w role address model max_model_len p in
    let p2 = put_instances role model (instances_of role model p1 ++ (address ∷ [])) p1 in
    let p3 = with_monitor (HealthMonitor.add_node address) p2 in
    elim fault [
      | none ↦ (
        with_discovery role (Discovery.add_instance role address) (Discovery.append_new address) p3,
        ok tt,
      )
      | some stage ↦ elim stage [
        | at_policy ↦ (roll_back w role address model index false p, raise runtime_error)
        | at_monitor ↦ (roll_back w role address model index true p2, raise runtime_error)
        | at_discovery ↦ (roll_back w role address model index true p3, raise runtime_error)
      ]
    ]

-- An exception takes the instance out of the registry and is raised again.
abbrev pub settle_join : String → Proxy × Result {0} Unit → Proxy × Result Bool
settle_join address (p, ok u) = (p, ok true)
settle_join address (p, raise e) = resume (with_registry (Registry.remove address) p) (λ u. fail e)

-- self.aggregated_instances.setdefault(model, [])
abbrev pub set_default : String → String → Proxy → Proxy
set_default role model p =
    if role == "aggregated" && not (Dict.has p.aggregated_instances model)
    then record p { aggregated_instances = Dict.set p.aggregated_instances model [] }
    else p

abbrev pub enter :
    World → String → String → String → ℕ → Option Stage → InstanceRegistry → Action Proxy Bool
enter w role address model max_model_len fault r p =
    elim (Registry.add role address model r >>= Registry.mark_healthy (w.clock address) address) [
      | raise e ↦ (set_default role model p, raise e)
      | ok r' ↦ settle_join address (
          join w role address model max_model_len fault
            (record (set_default role model p) { registry = some r' }))
    ]

-- `details` is what `_validated_instance_details` returns for the address.
unfoldable pub add_instance :
    World → String → String → Option (String × ℕ) → Option Stage → Action Proxy Bool
unfolding join with_registry
add_instance w role address details fault p = elim p.registry [
  | none ↦ (p, raise runtime_error)
  | some r ↦ elim details [
    | none ↦ (p, ok false)
    | some d ↦ elim (Registry.get_instance_info (w.clock address) address r) [
      | ok found ↦ (record p { registry = some found.0 }, raise value_error)
      | raise e ↦ enter w role address d.0 d.1 fault r p
    ]
  ]
]

-- `drain_and_remove_instance` behind its loop, with the index of the instance
abbrev pub leave_at : World → String → String → String → Proxy → Result ℕ → Proxy × Result {0} Unit
leave_at w role address model p (raise e) = (p, raise e)
leave_at w role address model p (ok index) =
    let p1 = leave_policy w role address model index p in
    let p2 = put_instances role model (remove_first address (instances_of role model p1)) p1 in
    with_registry (Registry.remove address) (forget role address (drop_empty role model p2))

-- Of an aggregated instance, the index is not asked for.
abbrev pub index_of : String → String → List String → Result ℕ
index_of role address xs = if role == "aggregated" then ok 0 else index_from 0 address xs

unfoldable pub leave : World → String → String → String → Action Proxy Unit
unfolding with_registry
leave w role address model p =
    leave_at w role address model p (index_of role address (instances_of role model p))

abbrev pub active_requests : String → Proxy → ℕ
active_requests address p = elim p.registry [
  | none ↦ 0
  | some r ↦ Registry.get_active_requests address r
]

-- The loop. The list has what other coroutines do to the proxy in each sleep that ends by the
-- deadline.
unfoldable pub wait : World → String → String → String → List (Proxy → Proxy) → Action Proxy Unit
wait w role address model [] p =
    if eqb (active_requests address p) 0
    then leave w role address model p
    else (p, raise timeout_error)
wait w role address model (sleep ∷ sleeps) p =
    if eqb (active_requests address p) 0
    then leave w role address model p
    else wait w role address model sleeps (sleep p)

unfoldable pub drain_and_remove_instance :
    World → String → String → List (Proxy → Proxy) → Action Proxy Unit
unfolding wait leave
drain_and_remove_instance w role address sleeps p = elim p.registry [
  | none ↦ (p, raise runtime_error)
  | some r ↦ elim (Registry.get_instance_info (w.clock address) address r) [
    | raise e ↦ (p, raise e)
    | ok found ↦ elim (Registry.begin_draining role address found.0) [
      | raise e ↦ (record p { registry = some found.0 }, raise e)
      | ok r' ↦ wait w role address found.1.model sleeps (record p { registry = some r' })
    ]
  ]
]
