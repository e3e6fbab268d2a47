-- ===== src/Registry/Refusals.antt =====
-- xpyd/registry.py: which calls raise, and what.
use micro_pdproxy.Base.{
  ℕ, ◌≡◌, refl, String, Option, none, some, List, [], ◌∷◌, ok, raise, Result, Error, key_error,
  value_error, arith, ◌==◌, ◌>>=◌, if◌then◌else◌, Option-cases, inl, inr,
}
use micro_pdproxy.Base.Dict
use micro_pdproxy.Base.Dict.{Dict}
use micro_pdproxy.Registry
use micro_pdproxy.Registry.{
  InstanceInfo, InstanceRecord, InstanceRegistry, is_role, put_instance, info_of_all, snapshot,
}
use micro_pdproxy.Registry.Calls.{
  Call, add, remove, begin_draining, update_model, mark_healthy, mark_unhealthy, record_success,
  record_failure, increment_active_requests, decrement_active_requests, get_available_instances,
  get_aggregated_instances, get_instance_info, get_all_instances, effect,
}
use micro_pdproxy.Registry.Entries.{
  AllPresent, read_state, get_instance_info_found, info_of_all_cons,
}

abbrev pub error_of {ℓ} : {A : Type ℓ} → Result A → Option Error
error_of (ok a) = none
error_of (raise e) = some e

abbrev unless_present : Option InstanceRecord → Option Error
unless_present none = some key_error
unless_present (some i) = none

abbrev unless_role : String → Option InstanceRecord → Option Error
unless_role role none = some key_error
unless_role role (some i) = if i.role == role then none else some value_error

-- What a call is to raise. Aggregated instances may be added, and `begin_draining` is given the
-- role that the instance was added with.
abbrev pub refusal : InstanceRegistry → Call → Option Error
refusal r (add role a model) =
    if is_role role
    then (if Dict.has r.instances a then some value_error else none)
    else some value_error
refusal r (remove a) = unless_present (Dict.get r.instances a)
refusal r (begin_draining role a) = unless_role role (Dict.get r.instances a)
refusal r (update_model a model) = unless_present (Dict.get r.instances a)
refusal r (mark_healthy now a) = unless_present (Dict.get r.instances a)
refusal r (mark_unhealthy now a) = unless_present (Dict.get r.instances a)
refusal r (record_success now a) = unless_present (Dict.get r.instances a)
refusal r (record_failure now later a) = unless_present (Dict.get r.instances a)
refusal r (increment_active_requests a) = unless_present (Dict.get r.instances a)
refusal r (decrement_active_requests a) = unless_present (Dict.get r.instances a)
refusal r (get_available_instances clock role model) = none
refusal r (get_aggregated_instances clock model) = none
refusal r (get_instance_info now a) = unless_present (Dict.get r.instances a)
refusal r (get_all_instances clock) = none

info_of_all_total :
    (clock : String → ℕ) (ks : List String) (r : InstanceRegistry)
    → AllPresent ks r.instances
    → (p : InstanceRegistry × List InstanceInfo) × (info_of_all clock ks r ≡ ok p)
info_of_all_total clock [] r here = ((r, []), unfold info_of_all in refl)
info_of_all_total clock (a ∷ ks) r here =
    let (j, found) = Dict.get_of-has r.instances a (here a (ground arith)) in
    let j' = read_state (clock a) j in
    let (p, result) =
      info_of_all_total clock ks (put_instance a j' r)
        (λ x m. ground (arith, here x, Dict.has-set r.instances a x j')) in
    (
      (p.0, snapshot j' ∷ p.1),
      info_of_all_cons clock a ks r (put_instance a j' r) p.0 (snapshot j') p.1
          (get_instance_info_found r (clock a) a j found) result,
    )

get_all_total :
    (r : InstanceRegistry) (clock : String → ℕ)
    → error_of (effect r (get_all_instances clock)) ≡ none
unfolding effect Registry.get_all_instances
get_all_total r clock =
    let (p, result) =
      info_of_all_total clock (Dict.keys r.instances) r
        (λ j m. ground (arith, Dict.has-eq-contains r.instances j)) in
    rw (result, ◌>>=◌)

remove-refusal :
    (r : InstanceRegistry) (a : String) → error_of (effect r (remove a)) ≡ refusal r (remove a)
unfolding effect Registry.remove
remove-refusal r a = elim (Option-cases (Dict.get r.instances a)) [
  | inl missing ↦ ground (arith, Dict.not-has_of-get r.instances a)
  | inr (i, found) ↦ ground (arith, Dict.has_of-get r.instances a i)
]

-- `add` raises `ValueError` for a role that is not prefill, decode or aggregated and for an address
-- that is registered, `begin_draining` raises `ValueError` for a role other than the registered one,
-- every call about one address but `add` raises `KeyError` if it is not registered, and no call raises
-- in any other case. The queries over all instances never raise.
pub effect-refusal : (r : InstanceRegistry) (c : Call) → error_of (effect r c) ≡ refusal r c
unfolding effect Registry.add Registry.begin_draining Registry.update_model Registry.mark_healthy
    Registry.mark_unhealthy Registry.record_success Registry.record_failure
    Registry.increment_active_requests Registry.decrement_active_requests Registry.get_instance_info
effect-refusal r (get_all_instances clock) = get_all_total r clock
effect-refusal r (remove a) = remove-refusal r a
effect-refusal r _ = ground arith
