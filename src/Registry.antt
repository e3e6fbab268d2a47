-- ===== src/Registry.antt =====
-- xpyd/registry.py: the registry of instances. The dict `_instances` keeps its insertion order. The
-- lock only serialises the methods, so a method is one step. A method that reads breaker states
-- takes the clock as a function from the instance's address to the reading made for it.
pub mod Calls
pub mod Availability
pub mod Invariant
pub mod Draining
pub mod Tripped
pub mod Entries
pub mod Models
pub mod Refusals
pub mod Counts
use micro_pdproxy.Base.{
  ℕ, ◌+◌, ◌-◌, String, Bool, true, false, not, ◌&&◌, ◌||◌, Option, none, some, List, [], ◌∷◌, ◌++◌,
  ◌==◌, if◌then◌else◌, Result, ok, raise, or_raise, sorted, set_of, value_error, key_error, ◌>>=◌,
}
use micro_pdproxy.Base.Dict
use micro_pdproxy.Base.Dict.{Dict}
use micro_pdproxy.CircuitBreaker
use micro_pdproxy.CircuitBreaker.{CircuitBreaker, CircuitBreakerState, current_state, is_closed}

pub data InstanceStatus : Type 0 where
  healthy unhealthy unknown draining : InstanceStatus

abbrev pub is_healthy : InstanceStatus → Bool
is_healthy healthy = true
is_healthy unhealthy = false
is_healthy unknown = false
is_healthy draining = false

pub record InstanceInfo : Type 0 where
  pub address : String
  pub role : String
  pub model : String
  pub status : InstanceStatus
  pub last_health_check : Option ℕ
  pub active_request_count : ℕ
  pub circuit_breaker_state : CircuitBreakerState

pub record InstanceRecord : Type 0 where
  pub address : String
  pub role : String
  pub model : String
  pub status : InstanceStatus
  pub last_health_check : Option ℕ
  pub active_request_count : ℕ
  pub circuit_breaker : CircuitBreaker

pub record InstanceRegistry : Type 0 where
  pub instances : Dict InstanceRecord
  pub cb_enabled : Bool
  pub cb_failure_threshold : ℕ
  pub cb_success_threshold : ℕ
  pub cb_timeout_duration : ℕ
  pub cb_window_duration : ℕ

-- __init__
unfoldable pub init : Bool → ℕ → ℕ → ℕ → ℕ → InstanceRegistry
init cb_enabled failures successes timeout window = record {
  instances = [];
  cb_enabled = cb_enabled;
  cb_failure_threshold = failures;
  cb_success_threshold = successes;
  cb_timeout_duration = timeout;
  cb_window_duration = window;
}

abbrev pub is_role : String → Bool
is_role role = role == "prefill" || role == "decode" || role == "aggregated"

unfoldable pub new_record : InstanceRegistry → String → String → String → InstanceRecord
new_record r role address model = record {
  address = address;
  role = role;
  model = model;
  status = unknown;
  last_health_check = none;
  active_request_count = 0;
  circuit_breaker =
      CircuitBreaker.new r.cb_failure_threshold r.cb_success_threshold r.cb_timeout_duration
        r.cb_window_duration;
}

unfoldable pub add : String → String → String → InstanceRegistry → Result InstanceRegistry
unfolding new_record
add role address model r =
    if not (is_role role)
    then raise value_error
    else if Dict.has r.instances address
    then raise value_error
    else ok
        (record r { instances = Dict.set r.instances address (new_record r role address model) })

unfoldable pub remove : String → InstanceRegistry → Result InstanceRegistry
remove address r =
    if Dict.has r.instances address
    then ok (record r { instances = Dict.delete r.instances address })
    else raise key_error

-- _get_instance
unfoldable pub get_instance : String → InstanceRegistry → Result InstanceRecord
get_instance address r = or_raise key_error (Dict.get r.instances address)

-- What the caller of `_get_instance` writes to the record that it got.
abbrev pub put_instance : String → InstanceRecord → InstanceRegistry → InstanceRegistry
put_instance address i r = record r { instances = Dict.set r.instances address i }

unfoldable pub begin_draining : String → String → InstanceRegistry → Result InstanceRegistry
unfolding get_instance
begin_draining role address r = do
  i ← get_instance address r
  if not (i.role == role)
      then raise value_error
      else ok (put_instance address (record i { status = draining }) r)

unfoldable pub update_model : String → String → InstanceRegistry → Result InstanceRegistry
unfolding get_instance
update_model address model r = do
  i ← get_instance address r
  ok (put_instance address (record i { model = model }) r)

-- `if instance.status != DRAINING: instance.status = s`
abbrev unless_draining : InstanceStatus → InstanceStatus → InstanceStatus
unless_draining draining s = draining
unless_draining healthy s = s
unless_draining unhealthy s = s
unless_draining unknown s = s

unfoldable pub mark_healthy : ℕ → String → InstanceRegistry → Result InstanceRegistry
unfolding get_instance
mark_healthy now address r = do
  i ← get_instance address r
  ok (
      put_instance address
        (record i { status = unless_draining i.status healthy; last_health_check = some now }) r)

unfoldable pub mark_unhealthy : ℕ → String → InstanceRegistry → Result InstanceRegistry
unfolding get_instance
mark_unhealthy now address r = do
  i ← get_instance address r
  ok (
      put_instance address
        (record i { status = unless_draining i.status unhealthy; last_health_check = some now }) r)

unfoldable pub record_success : ℕ → String → InstanceRegistry → Result InstanceRegistry
unfolding get_instance
record_success now address r = do
  i ← get_instance address r
  ok (
      put_instance address
        (record i { circuit_breaker = CircuitBreaker.record_success now i.circuit_breaker }) r)

unfoldable pub record_failure : ℕ → ℕ → String → InstanceRegistry → Result InstanceRegistry
unfolding get_instance
record_failure now later address r = do
  i ← get_instance address r
  ok (
      put_instance address
        (record i { circuit_breaker = CircuitBreaker.record_failure now later i.circuit_breaker })
        r)

unfoldable pub increment_active_requests : String → InstanceRegistry → Result InstanceRegistry
unfolding get_instance
increment_active_requests address r = do
  i ← get_instance address r
  ok (put_instance address (record i { active_request_count = i.active_request_count + 1 }) r)

-- `max(0, count - 1)` is the truncated difference.
unfoldable pub decrement_active_requests : String → InstanceRegistry → Result InstanceRegistry
unfolding get_instance
decrement_active_requests address r = do
  i ← get_instance address r
  ok (put_instance address (record i { active_request_count = i.active_request_count - 1 }) r)

unfoldable pub get_active_requests : String → InstanceRegistry → ℕ
unfolding get_instance
get_active_requests address r = elim (get_instance address r) [
  | raise e ↦ 0
  | ok i ↦ i.active_request_count
]

read_breaker : CircuitBreaker → InstanceRecord → InstanceRecord × Bool
read_breaker b i = (record i { circuit_breaker = b }, is_closed b.state)

-- The body of the loop of `get_available_instances`: whether the instance is appended to the
-- results, and the record, whose breaker may have moved to HALF-OPEN when its state was read.
unfoldable pub consider : Bool → String → String → ℕ → InstanceRecord → InstanceRecord × Bool
unfolding read_breaker
consider cb_enabled role model now i =
    if not (i.role == role)
    then (i, false)
    else if not (model == "") && not (i.model == model)
    then (i, false)
    else if not (is_healthy i.status)
    then (i, false)
    else if cb_enabled
    then read_breaker (current_state now i.circuit_breaker) i
    else (i, true)

unfoldable pub scan :
    Bool → String → String → (String → ℕ) → Dict InstanceRecord → Dict InstanceRecord × List String
scan cb_enabled role model clock [] = ([], [])
scan cb_enabled role model clock ((k, i) ∷ d) =
    let (i', taken) = consider cb_enabled role model (clock k) i in
    let (d', results) = scan cb_enabled role model clock d in
    ((k, i') ∷ d', if taken then i.address ∷ results else results)

unfoldable pub get_available_instances :
    (String → ℕ) → String → String → InstanceRegistry → InstanceRegistry × List String
unfolding scan
get_available_instances clock role model r =
    let (d, results) = scan r.cb_enabled role model clock r.instances in
    (record r { instances = d }, results)

-- The loop is that of `get_available_instances` with the role "aggregated".
unfoldable pub get_aggregated_instances :
    (String → ℕ) → String → InstanceRegistry → InstanceRegistry × List String
unfolding scan
get_aggregated_instances clock model r =
    let (d, results) = scan r.cb_enabled "aggregated" model clock r.instances in
    (record r { instances = d }, results)

abbrev pub snapshot : InstanceRecord → InstanceInfo
snapshot i = record {
  address = i.address;
  role = i.role;
  model = i.model;
  status = i.status;
  last_health_check = i.last_health_check;
  active_request_count = i.active_request_count;
  circuit_breaker_state = i.circuit_breaker.state;
}

-- Reading the breaker's state may move it to HALF-OPEN, so the registry comes back too.
unfoldable pub get_instance_info :
    ℕ → String → InstanceRegistry → Result (InstanceRegistry × InstanceInfo)
unfolding get_instance
get_instance_info now address r = do
  i ← get_instance address r
  let i' = record i { circuit_breaker = current_state now i.circuit_breaker }
  ok (put_instance address i' r, snapshot i')

-- The loop of `get_all_instances` over the keys of the dict.
pub info_of_all :
    (String → ℕ) → List String → InstanceRegistry → Result (InstanceRegistry × List InstanceInfo)
unfolding get_instance_info
info_of_all clock [] r = ok (r, [])
info_of_all clock (address ∷ addresses) r = do
  (r', info) ← get_instance_info (clock address) address r
  (r'', infos) ← info_of_all clock addresses r'
  ok (r'', info ∷ infos)

unfoldable pub get_all_instances :
    (String → ℕ) → InstanceRegistry → Result (InstanceRegistry × List InstanceInfo)
unfolding info_of_all
get_all_instances clock r = info_of_all clock (Dict.keys r.instances) r

-- The comprehension of `get_registered_models`, before `set` and `sorted`.
models_of : Dict InstanceRecord → List String
models_of [] = []
models_of ((k, i) ∷ d) = if i.model == "" then models_of d else i.model ∷ models_of d

unfoldable pub get_registered_models : InstanceRegistry → List String
unfolding models_of
get_registered_models r = sorted (set_of (models_of r.instances))
