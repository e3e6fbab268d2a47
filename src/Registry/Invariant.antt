-- ===== src/Registry/Invariant.antt =====
-- xpyd/registry.py: what holds of a registry between two calls.
use micro_pdproxy.Base.{
  ℕ, ◌<◌, ◌≡◌, refl, String, Bool, true, some, List, [], ◌∷◌, ok, ◌>>=◌, Distinct, arith,
  or_unchanged_keeps, Ensures, Ensures-bind, Ensures-if, or_raise-Ensures, not, ◌==◌,
}
use micro_pdproxy.Base.Dict
use micro_pdproxy.Base.Dict.{Dict}
use micro_pdproxy.CircuitBreaker
use micro_pdproxy.CircuitBreaker.Invariant.{
  current_state-IsValid, record_failure-IsValid, record_success-IsValid, new-IsValid,
}
use micro_pdproxy.CircuitBreaker.Invariant as Breaker
use micro_pdproxy.Registry
use micro_pdproxy.Registry.{
  InstanceRecord, InstanceRegistry, draining, healthy, unhealthy, init, is_role, new_record,
  get_instance, put_instance, consider, scan, info_of_all, get_instance_info, unless_draining,
}
use micro_pdproxy.Registry.Calls.{
  Call, add, remove, begin_draining, update_model, mark_healthy, mark_unhealthy, record_success,
  record_failure, increment_active_requests, decrement_active_requests, get_available_instances,
  get_aggregated_instances, get_all_instances, effect, step, run,
}
use micro_pdproxy.Registry.Calls as Calls

pub record IsEntry (k : String) (i : InstanceRecord) : Type 0 where
  pub named : i.address ≡ k
  pub role_known : is_role i.role ≡ true
  pub breaker : Breaker.IsValid i.circuit_breaker

pub record IsValid (r : InstanceRegistry) : Type 0 where
  pub failures_positive : 0 < r.cb_failure_threshold
  pub successes_positive : 0 < r.cb_success_threshold
  pub distinct : Distinct (Dict.keys r.instances)
  pub entries : Dict.AllEntries IsEntry r.instances

put_instance-IsValid :
    (r : InstanceRegistry) (a : String) (i : InstanceRecord)
    → IsEntry a i
    → IsValid r
    → IsValid (put_instance a i r)
put_instance-IsValid r a i e v = record {
  failures_positive = v.failures_positive;
  successes_positive = v.successes_positive;
  distinct = Dict.set-Distinct r.instances a i v.distinct;
  entries = Dict.AllEntries-set IsEntry r.instances a i v.entries e;
}

-- The entry of a registered address.
entry :
    (r : InstanceRegistry) (a : String) (i : InstanceRecord)
    → IsValid r
    → Dict.get r.instances a ≡ some i
    → IsEntry a i
entry r a i v e = Dict.AllEntries-get IsEntry r.instances a i v.entries e

consider-IsEntry :
    (cb_enabled : Bool) (role model k : String) (now : ℕ) (i : InstanceRecord)
    → IsEntry k i
    → IsEntry k (consider cb_enabled role model now i).0
unfolding consider
consider-IsEntry cb_enabled role model k now i e =
    ground (arith, current_state-IsValid i.circuit_breaker now e.breaker)

scan-keys :
    (cb_enabled : Bool) (role model : String) (clock : String → ℕ) (d : Dict InstanceRecord)
    → Dict.keys (scan cb_enabled role model clock d).0 ≡ Dict.keys d
unfolding scan
scan-keys cb_enabled role model clock [] = refl
scan-keys cb_enabled role model clock ((k, i) ∷ d) = rw (scan-keys cb_enabled role model clock d)

scan-IsEntry :
    (cb_enabled : Bool) (role model : String) (clock : String → ℕ) (d : Dict InstanceRecord)
    → Dict.AllEntries IsEntry d
    → Dict.AllEntries IsEntry (scan cb_enabled role model clock d).0
unfolding scan
scan-IsEntry cb_enabled role model clock [] h = h
scan-IsEntry cb_enabled role model clock ((k, i) ∷ d) h = (
  consider-IsEntry cb_enabled role model k (clock k) i h.0,
  scan-IsEntry cb_enabled role model clock d h.1,
)

get_instance-Ensures :
    (r : InstanceRegistry) (a : String) → IsValid r → Ensures (IsEntry a) (get_instance a r)
unfolding get_instance
get_instance-Ensures r a v =
    or_raise-Ensures (IsEntry a) _ (Dict.get r.instances a)
      (λ i found. Dict.AllEntries-get IsEntry r.instances a i v.entries found)

-- A method that gets an instance and writes it back changed.
modify-Ensures :
    (r : InstanceRegistry) (a : String) (f : InstanceRecord → InstanceRecord)
    → ((i : InstanceRecord) → IsEntry a i → IsEntry a (f i))
    → IsValid r
    → Ensures IsValid (get_instance a r >>= λ i. ok (put_instance a (f i) r))
modify-Ensures r a f keeps v =
    Ensures-bind (IsEntry a) IsValid (get_instance a r) _ (get_instance-Ensures r a v)
      (λ i e. put_instance-IsValid r a (f i) (keeps i e) v)

new_record-IsEntry :
    (r : InstanceRegistry) (role address model : String)
    → IsValid r
    → is_role role ≡ true
    → IsEntry address (new_record r role address model)
unfolding new_record
new_record-IsEntry r role address model v known = record {
  named = refl;
  role_known = known;
  breaker = new-IsValid _ _ _ _ v.failures_positive v.successes_positive;
}

delete-IsValid :
    (r : InstanceRegistry) (a : String)
    → IsValid r
    → IsValid (record r { instances = Dict.delete r.instances a })
delete-IsValid r a v = record {
  failures_positive = v.failures_positive;
  successes_positive = v.successes_positive;
  distinct = Dict.delete-Distinct r.instances a v.distinct;
  entries = Dict.AllEntries-delete IsEntry r.instances a v.entries;
}

scan-IsValid :
    (r : InstanceRegistry) (clock : String → ℕ) (role model : String)
    → IsValid r
    → IsValid (record r { instances = (scan r.cb_enabled role model clock r.instances).0 })
scan-IsValid r clock role model v = record {
  failures_positive = v.failures_positive;
  successes_positive = v.successes_positive;
  distinct = rw (scan-keys r.cb_enabled role model clock r.instances) v.distinct;
  entries = scan-IsEntry r.cb_enabled role model clock r.instances v.entries;
}

-- The registry of a result that carries more.
abbrev First {ℓ} : {A : Type ℓ} → InstanceRegistry × A → Type 0
First p = IsValid p.0

get_instance_info-Ensures :
    (r : InstanceRegistry) (now : ℕ) (address : String)
    → IsValid r
    → Ensures First (get_instance_info now address r)
unfolding Registry.get_instance_info
get_instance_info-Ensures r now a v =
    Ensures-bind (IsEntry a) First (get_instance a r) _ (get_instance-Ensures r a v) (λ i e.
      put_instance-IsValid r a
        (record i { circuit_breaker = CircuitBreaker.current_state now i.circuit_breaker })
        (record {
          named = e.named;
          role_known = e.role_known;
          breaker = current_state-IsValid i.circuit_breaker now e.breaker;
        })
        v)

info_of_all-Ensures :
    (clock : String → ℕ) (addresses : List String) (r : InstanceRegistry)
    → IsValid r
    → Ensures First (info_of_all clock addresses r)
unfolding info_of_all
info_of_all-Ensures clock [] r v = v
info_of_all-Ensures clock (a ∷ addresses) r v =
    Ensures-bind First First (get_instance_info (clock a) a r) _
      (get_instance_info-Ensures r (clock a) a v)
      (λ p v'.
        Ensures-bind First First (info_of_all clock addresses p.0) _
          (info_of_all-Ensures clock addresses p.0 v') (λ q v''. v''))

effect-Ensures : (r : InstanceRegistry) (c : Call) → IsValid r → Ensures IsValid (effect r c)
unfolding effect Registry.add Registry.remove Registry.begin_draining Registry.update_model
    Registry.mark_healthy Registry.mark_unhealthy Registry.record_success Registry.record_failure
    Registry.increment_active_requests Registry.decrement_active_requests
    Registry.get_available_instances Registry.get_aggregated_instances Registry.get_all_instances
effect-Ensures r (add role a model) v =
    Ensures-if IsValid (not (is_role role)) _ _ (λ bad. tt)
      (λ known.
        Ensures-if IsValid (Dict.has r.instances a) _ _ (λ present. tt)
          (λ free.
            put_instance-IsValid r a (new_record r role a model)
              (new_record-IsEntry r role a model v (ground arith)) v))
effect-Ensures r (remove a) v =
    Ensures-if IsValid (Dict.has r.instances a) _ _ (λ present. delete-IsValid r a v)
      (λ missing. tt)
effect-Ensures r (begin_draining role a) v =
    Ensures-bind (IsEntry a) IsValid (get_instance a r) _ (get_instance-Ensures r a v) (λ i e.
      Ensures-if IsValid (not (i.role == role)) _ _ (λ other. tt)
        (λ same.
          put_instance-IsValid r a (record i { status = draining })
            (record { named = e.named; role_known = e.role_known; breaker = e.breaker }) v))
effect-Ensures r (update_model a model) v =
    modify-Ensures r a (λ i. record i { model = model }) (λ i e. ground arith) v
effect-Ensures r (mark_healthy now a) v = modify-Ensures r a _ (λ i e. ground arith) v
effect-Ensures r (mark_unhealthy now a) v = modify-Ensures r a _ (λ i e. ground arith) v
effect-Ensures r (record_success now a) v =
    modify-Ensures r a _
      (λ i e. ground (arith, record_success-IsValid i.circuit_breaker now e.breaker)) v
effect-Ensures r (record_failure now later a) v =
    modify-Ensures r a _
      (λ i e. ground (arith, record_failure-IsValid i.circuit_breaker now later e.breaker)) v
effect-Ensures r (increment_active_requests a) v = modify-Ensures r a _ (λ i e. ground arith) v
effect-Ensures r (decrement_active_requests a) v = modify-Ensures r a _ (λ i e. ground arith) v
effect-Ensures r (get_available_instances clock role model) v = scan-IsValid r clock role model v
effect-Ensures r (get_aggregated_instances clock model) v =
    scan-IsValid r clock "aggregated" model v
effect-Ensures r (Calls.get_instance_info now a) v =
    Ensures-bind First IsValid (get_instance_info now a r) _ (get_instance_info-Ensures r now a v)
      (λ p v'. v')
effect-Ensures r (get_all_instances clock) v =
    Ensures-bind First IsValid (info_of_all clock (Dict.keys r.instances) r) _
      (info_of_all-Ensures clock (Dict.keys r.instances) r v) (λ p v'. v')

pub step-IsValid : (r : InstanceRegistry) (c : Call) → IsValid r → IsValid (step r c)
step-IsValid r c v = or_unchanged_keeps IsValid r (effect r c) v (effect-Ensures r c v)

-- Any sequence of calls, raising or not, keeps a valid registry valid: no address twice, each under
-- its own key and with a known role, and each breaker within its thresholds.
pub registry_run-IsValid :
    (r : InstanceRegistry) (calls : List Call) → IsValid r → IsValid (run r calls)
unfolding run
registry_run-IsValid r [] v = v
registry_run-IsValid r (c ∷ calls) v = registry_run-IsValid (step r c) calls (step-IsValid r c v)

-- A new registry with positive thresholds is valid.
pub init-IsValid :
    (cb_enabled : Bool) (failures successes timeout window : ℕ)
    → 0 < failures
    → 0 < successes
    → IsValid (init cb_enabled failures successes timeout window)
unfolding init
init-IsValid cb_enabled failures successes timeout window p q = ground arith
