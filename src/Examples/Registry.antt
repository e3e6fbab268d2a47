-- ===== src/Examples/Registry.antt =====
-- Concrete runs of the registry (xpyd/registry.py).
use micro_pdproxy.Base.{
  ℕ, ◌≡◌, refl, String, true, false, some, List, [], ◌∷◌, arith, string_discrete, contains,
  Distinct,
}
use micro_pdproxy.Base.Dict
use micro_pdproxy.CircuitBreaker
use micro_pdproxy.CircuitBreaker.{CircuitBreaker, opened, closed}
use micro_pdproxy.Registry
use micro_pdproxy.Registry.{
  InstanceRegistry, InstanceRecord, init, healthy, get_available_instances, get_registered_models,
}
use micro_pdproxy.HealthMonitor.{status}
use micro_pdproxy.HealthMonitor.Probes.{probe_all, probe_all-get, probed, last_probe}
use micro_pdproxy.HealthMonitor.{unreachable}
use micro_pdproxy.Registry.Calls.{
  Call, add, remove, begin_draining, mark_healthy, record_failure, run, step, effect,
  get_instance_info, increment_active_requests,
}
use micro_pdproxy.Registry.Invariant.{IsValid, init-IsValid, registry_run-IsValid}
use micro_pdproxy.Registry.Entries.{afters, run-get}
use micro_pdproxy.Registry.Availability.{available?, available-contains}
use micro_pdproxy.Registry.Draining.{draining_excluded}
use micro_pdproxy.Registry.Tripped.{tripped_excluded}
use micro_pdproxy.Registry.Refusals.{error_of, refusal, effect-refusal}

abbrev empty : InstanceRegistry
empty = init true 1 2 30 60

empty-IsValid : IsValid empty
empty-IsValid = init-IsValid true 1 2 30 60 (omega arith) (omega arith)

abbrev setup : List Call
setup =
    add "prefill" "a" "m"
    ∷ add "prefill" "b" "m"
    ∷ mark_healthy 5 "a"
    ∷ mark_healthy 5 "b"
    ∷ record_failure 6 6 "b"
    ∷ []

abbrev registry : InstanceRegistry
registry = run empty setup

registry-IsValid : IsValid registry
registry-IsValid = registry_run-IsValid empty setup empty-IsValid

abbrev clock : String → ℕ
clock address = 100

abbrev record_a : InstanceRecord
record_a = record {
  address = "a";
  role = "prefill";
  model = "m";
  status = healthy;
  last_health_check = some 5;
  active_request_count = 0;
  circuit_breaker = CircuitBreaker.new 1 2 30 60;
}

abbrev record_b : InstanceRecord
record_b = record {
  address = "b";
  role = "prefill";
  model = "m";
  status = healthy;
  last_health_check = some 5;
  active_request_count = 0;
  circuit_breaker = CircuitBreaker.open_at 6 (CircuitBreaker.new 1 2 30 60);
}

found_a : Dict.get registry.instances "a" ≡ some record_a
unfolding run effect init Registry.add Registry.mark_healthy Registry.record_failure string_discrete
    Dict.get Dict.has Dict.set
found_a = refl

found_b : Dict.get registry.instances "b" ≡ some record_b
unfolding run effect init Registry.add Registry.mark_healthy Registry.record_failure string_discrete
    Dict.get Dict.has Dict.set CircuitBreaker.open_at CircuitBreaker.record_failure
    CircuitBreaker.new
found_b = refl

registry_run-IsValid_example : IsValid (run empty setup)
registry_run-IsValid_example = registry_run-IsValid empty setup empty-IsValid

available-contains_example :
    (contains (get_available_instances clock "prefill" "m" registry).1 "a"
      ≡ available? registry.cb_enabled "prefill" "m" (clock "a") (Dict.get registry.instances "a"))
    × Distinct (get_available_instances clock "prefill" "m" registry).1
available-contains_example = available-contains clock "prefill" "m" registry "a" registry-IsValid

run-get_example :
    Dict.get (run registry (increment_active_requests "a" ∷ remove "b" ∷ [])).instances "a"
    ≡ some
        (afters registry.cb_enabled (increment_active_requests "a" ∷ remove "b" ∷ []) "a" record_a)
unfolding string_discrete
run-get_example =
    run-get registry (increment_active_requests "a" ∷ remove "b" ∷ []) "a" record_a registry-IsValid
      (refl, (refl, tt)) found_a

draining_excluded_example :
    contains
      (get_available_instances clock "prefill" "m"
        (run (step registry (begin_draining "prefill" "a")) (mark_healthy 50 "a" ∷ []))).1
      "a"
    ≡ false
draining_excluded_example =
    draining_excluded registry "a" record_a (mark_healthy 50 "a" ∷ []) clock "prefill" "m"
      registry-IsValid found_a (refl, tt)

tripped_excluded_example :
    contains
      (get_available_instances clock "prefill" "m"
        (run registry (mark_healthy 90 "b" ∷ get_instance_info 95 "b" ∷ []))).1
      "b"
    ≡ false
unfolding run init CircuitBreaker.open_at effect Registry.record_failure Dict.get
    Registry.mark_healthy Registry.add string_discrete Dict.has Dict.set
tripped_excluded_example =
    tripped_excluded registry "b" record_b (mark_healthy 90 "b" ∷ get_instance_info 95 "b" ∷ [])
      clock "prefill" "m" registry-IsValid refl found_b refl (refl, (refl, tt)) (refl, (refl, tt))

effect-refusal_example :
    error_of (effect registry (add "prefill" "a" "m")) ≡ refusal registry (add "prefill" "a" "m")
effect-refusal_example = effect-refusal registry (add "prefill" "a" "m")

probe_all-get_example :
    Dict.get
      (probe_all ((50, "b", status 200) ∷ (60, "b", unreachable) ∷ []) registry).instances
      "b"
    ≡ some (probed (last_probe "b" ((50, "b", status 200) ∷ (60, "b", unreachable) ∷ [])) record_b)
probe_all-get_example =
    probe_all-get ((50, "b", status 200) ∷ (60, "b", unreachable) ∷ []) registry "b" record_b
      found_b
