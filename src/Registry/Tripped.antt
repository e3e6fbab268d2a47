-- ===== src/Registry/Tripped.antt =====
-- xpyd/registry.py: an instance whose breaker has tripped. The queries leave half-open instances
-- out, and no method asks the breaker to admit a probe.
use micro_pdproxy.Base.{
  ℕ, ◌≡◌, ap, ◌∙◌, String, Bool, true, false, some, List, [], ◌∷◌, arith, contains,
}
use micro_pdproxy.Base.Dict
use micro_pdproxy.CircuitBreaker.{CircuitBreaker, is_closed, current_state, record_failure}
use micro_pdproxy.Registry.{InstanceRecord, InstanceRegistry, consider, get_available_instances}
use micro_pdproxy.Registry.Calls.{Call, run, None, removes, succeeds}
use micro_pdproxy.Registry.Invariant.{IsValid, registry_run-IsValid}
use micro_pdproxy.Registry.Entries.{after, afters, run-get, cb_enabled-run}
use micro_pdproxy.Registry.Availability.{available?, available-contains}

current_state_open :
    (b : CircuitBreaker) (now : ℕ)
    → is_closed b.state ≡ false
    → is_closed (current_state now b).state ≡ false
unfolding current_state
current_state_open b now h = ground arith

record_failure_open :
    (b : CircuitBreaker) (now later : ℕ)
    → is_closed b.state ≡ false
    → is_closed (record_failure now later b).state ≡ false
unfolding record_failure
record_failure_open b now later h = ground arith

after_open :
    (cb_enabled : Bool) (c : Call) (k : String) (i : InstanceRecord)
    → succeeds c k ≡ false
    → is_closed i.circuit_breaker.state ≡ false
    → is_closed (after cb_enabled c k i).circuit_breaker.state ≡ false
unfolding after consider
after_open cb_enabled c k i s h = grind (arith, current_state_open, record_failure_open)

afters_open :
    (cb_enabled : Bool) (calls : List Call) (k : String) (i : InstanceRecord)
    → None (λ c. succeeds c k) calls
    → is_closed i.circuit_breaker.state ≡ false
    → is_closed (afters cb_enabled calls k i).circuit_breaker.state ≡ false
unfolding afters
afters_open cb_enabled [] k i s h = h
afters_open cb_enabled (c ∷ calls) k i s h =
    afters_open cb_enabled calls k (after cb_enabled c k i) s.1 (after_open cb_enabled c k i s.0 h)

not-available :
    (cb_enabled : Bool) (role model : String) (now : ℕ) (i : InstanceRecord)
    → cb_enabled ≡ true
    → is_closed i.circuit_breaker.state ≡ false
    → available? cb_enabled role model now (some i) ≡ false
not-available cb_enabled role model now i e h =
    ground (arith, current_state_open i.circuit_breaker now h)

-- Where breakers are enabled, an instance whose breaker is open or half-open is in the answer to no
-- query for available instances until a success is recorded for it or it is removed: not after the
-- breaker's timeout, however late the query, nor after any number of good health checks.
pub tripped_excluded :
    (r : InstanceRegistry) (k : String) (i : InstanceRecord) (calls : List Call)
    (clock : String → ℕ) (role model : String)
    → IsValid r
    → r.cb_enabled ≡ true
    → Dict.get r.instances k ≡ some i
    → is_closed i.circuit_breaker.state ≡ false
    → None (λ c. removes c k) calls
    → None (λ c. succeeds c k) calls
    → contains (get_available_instances clock role model (run r calls)).1 k ≡ false
tripped_excluded r k i calls clock role model v on h o s t =
    (available-contains clock role model (run r calls) k (registry_run-IsValid r calls v)).0
    ∙ ap (available? (run r calls).cb_enabled role model (clock k)) (run-get r calls k i v s h)
    ∙ not-available (run r calls).cb_enabled role model (clock k) (afters r.cb_enabled calls k i)
        (cb_enabled-run r calls ∙ on) (afters_open r.cb_enabled calls k i t o)
