-- ===== src/Registry/Counts.antt =====
-- xpyd/registry.py: the calls that touch the number of an instance's active requests, and those that
-- do not.
use micro_pdproxy.Base.{
  ℕ, ◌+◌, ◌-◌, ◌≡◌, refl, String, Bool, true, Option, none, some, List, [], ◌∷◌, ok, ◌==◌,
  if◌then◌else◌, arith, Option-cases, inl, inr, Result-cases,
}
use micro_pdproxy.Base.Dict
use micro_pdproxy.Base.Dict.{Dict}
use micro_pdproxy.CircuitBreaker
use micro_pdproxy.Registry
use micro_pdproxy.Registry.{
  InstanceRecord, InstanceRegistry, consider, scan, get_instance, put_instance, get_active_requests,
  increment_active_requests, decrement_active_requests, get_available_instances, get_instance_info,
}

-- The number of active requests of what is found.
abbrev pub count_of : Option InstanceRecord → ℕ
count_of none = 0
count_of (some i) = i.active_request_count

pub active-count_of :
    (a : String) (r : InstanceRegistry)
    → get_active_requests a r ≡ count_of (Dict.get r.instances a)
unfolding get_active_requests get_instance
active-count_of a r = ground arith

consider-active :
    (cb_enabled : Bool) (role model : String) (now : ℕ) (i : InstanceRecord)
    → (consider cb_enabled role model now i).0.active_request_count ≡ i.active_request_count
unfolding consider
consider-active cb_enabled role model now i = ground arith

scan-active :
    (cb_enabled : Bool) (role model : String) (clock : String → ℕ) (d : Dict InstanceRecord)
    (a : String)
    → count_of (Dict.get (scan cb_enabled role model clock d).0 a) ≡ count_of (Dict.get d a)
unfolding scan Dict.get
scan-active cb_enabled role model clock [] a = refl
scan-active cb_enabled role model clock ((k, i) ∷ d) a = ground (
  arith,
  scan-active cb_enabled role model clock d a,
  consider-active cb_enabled role model (clock k) i,
)

pub available-active :
    (clock : String → ℕ) (role model : String) (r : InstanceRegistry) (a : String)
    → get_active_requests a (get_available_instances clock role model r).0 ≡ get_active_requests a r
unfolding get_available_instances
available-active clock role model r a = ground (
  arith,
  scan-active r.cb_enabled role model clock r.instances a,
  active-count_of a r,
  active-count_of a (get_available_instances clock role model r).0,
)

abbrev pub one_if : String → String → ℕ
one_if a b = if a == b then 1 else 0

pub increment-active :
    (a b : String) (r r' : InstanceRegistry)
    → increment_active_requests a r ≡ ok r'
    → get_active_requests b r' ≡ get_active_requests b r + one_if a b
unfolding increment_active_requests get_instance
increment-active a b r r' h = elim (Option-cases (Dict.get r.instances a)) [
  | inl missing ↦ ground arith
  | inr (j, found) ↦ ground (
    arith,
    active-count_of b r,
    active-count_of b r',
    Dict.get-set r.instances a b (record j { active_request_count = j.active_request_count + 1 }),
  )
]

pub decrement-active :
    (a b : String) (r r' : InstanceRegistry)
    → decrement_active_requests a r ≡ ok r'
    → get_active_requests b r' ≡ get_active_requests b r - one_if a b
unfolding decrement_active_requests get_instance
decrement-active a b r r' h = elim (Option-cases (Dict.get r.instances a)) [
  | inl missing ↦ ground arith
  | inr (j, found) ↦ ground (
    arith,
    active-count_of b r,
    active-count_of b r',
    Dict.get-set r.instances a b (record j { active_request_count = j.active_request_count - 1 }),
  )
]

pub info-active :
    (now : ℕ) (a b : String) (r : InstanceRegistry) (s : InstanceRegistry × Registry.InstanceInfo)
    → get_instance_info now a r ≡ ok s
    → get_active_requests b s.0 ≡ get_active_requests b r
unfolding get_instance_info get_instance
info-active now a b r s h = elim (Option-cases (Dict.get r.instances a)) [
  | inl missing ↦ ground arith
  | inr (j, found) ↦ ground (
    arith,
    active-count_of b r,
    active-count_of b s.0,
    Dict.get-set r.instances a b
        (record j { circuit_breaker = CircuitBreaker.current_state now j.circuit_breaker }),
  )
]

pub success-active :
    (now : ℕ) (a b : String) (r r' : InstanceRegistry)
    → Registry.record_success now a r ≡ ok r'
    → get_active_requests b r' ≡ get_active_requests b r
unfolding Registry.record_success get_instance
success-active now a b r r' h = elim (Option-cases (Dict.get r.instances a)) [
  | inl missing ↦ ground arith
  | inr (j, found) ↦ ground (
    arith,
    active-count_of b r,
    active-count_of b r',
    Dict.get-set r.instances a b
        (record j { circuit_breaker = CircuitBreaker.record_success now j.circuit_breaker }),
  )
]

-- Whether the registry has an address, which the calls that are made for a request do not change.
abbrev pub known : String → InstanceRegistry → Bool
known a r = Dict.has r.instances a

scan-has :
    (cb_enabled : Bool) (role model : String) (clock : String → ℕ) (d : Dict InstanceRecord)
    (a : String)
    → Dict.has (scan cb_enabled role model clock d).0 a ≡ Dict.has d a
unfolding scan Dict.has
scan-has cb_enabled role model clock [] a = refl
scan-has cb_enabled role model clock ((k, i) ∷ d) a =
    ground (arith, scan-has cb_enabled role model clock d a)

pub available-known :
    (clock : String → ℕ) (role model : String) (r : InstanceRegistry) (a : String)
    → known a (get_available_instances clock role model r).0 ≡ known a r
unfolding get_available_instances
available-known clock role model r a = scan-has r.cb_enabled role model clock r.instances a

pub increment-known :
    (a b : String) (r r' : InstanceRegistry)
    → increment_active_requests a r ≡ ok r'
    → known b r ≡ true
    → known b r' ≡ true
unfolding increment_active_requests get_instance
increment-known a b r r' h k = elim (Option-cases (Dict.get r.instances a)) [
  | inl missing ↦ ground arith
  | inr (j, found) ↦ ground (
    arith,
    Dict.has-set r.instances a b (record j { active_request_count = j.active_request_count + 1 }),
  )
]

pub incremented-known :
    (a : String) (r r' : InstanceRegistry)
    → increment_active_requests a r ≡ ok r'
    → known a r' ≡ true
unfolding increment_active_requests get_instance
incremented-known a r r' h = elim (Option-cases (Dict.get r.instances a)) [
  | inl missing ↦ ground arith
  | inr (j, found) ↦ ground (
    arith,
    Dict.has-set r.instances a a (record j { active_request_count = j.active_request_count + 1 }),
  )
]

pub decrement-known :
    (a b : String) (r r' : InstanceRegistry)
    → decrement_active_requests a r ≡ ok r'
    → known b r ≡ true
    → known b r' ≡ true
unfolding decrement_active_requests get_instance
decrement-known a b r r' h k = elim (Option-cases (Dict.get r.instances a)) [
  | inl missing ↦ ground arith
  | inr (j, found) ↦ ground (
    arith,
    Dict.has-set r.instances a b (record j { active_request_count = j.active_request_count - 1 }),
  )
]

-- A request's end is counted for a known address.
pub decrement_total :
    (a : String) (r : InstanceRegistry)
    → known a r ≡ true
    → (r' : InstanceRegistry) × (decrement_active_requests a r ≡ ok r')
unfolding decrement_active_requests get_instance
decrement_total a r h =
    let (i, found) = Dict.get_of-has r.instances a h in
    (
      put_instance a (record i { active_request_count = i.active_request_count - 1 }) r,
      ground arith,
    )

pub aggregated-active :
    (clock : String → ℕ) (model : String) (r : InstanceRegistry) (a : String)
    → get_active_requests a (Registry.get_aggregated_instances clock model r).0
      ≡ get_active_requests a r
unfolding Registry.get_aggregated_instances
aggregated-active clock model r a = ground (
  arith,
  scan-active r.cb_enabled "aggregated" model clock r.instances a,
  active-count_of a r,
  active-count_of a (Registry.get_aggregated_instances clock model r).0,
)

infos-active :
    (clock : String → ℕ) (keys : List String) (b : String) (r : InstanceRegistry)
    (s : InstanceRegistry × List Registry.InstanceInfo)
    → Registry.info_of_all clock keys r ≡ ok s
    → get_active_requests b s.0 ≡ get_active_requests b r
unfolding Registry.info_of_all
infos-active clock [] b r s h = ground arith
infos-active clock (k ∷ keys) b r s h = elim (Result-cases (get_instance_info (clock k) k r)) [
  | inr (e, failed) ↦ ground arith
  | inl (t, found) ↦ elim (Result-cases (Registry.info_of_all clock keys t.0)) [
    | inr (e, failed) ↦ ground arith
    | inl (u, rest) ↦
        ground (arith, infos-active clock keys b t.0 u rest, info-active (clock k) k b r t found)
  ]
]

pub all-active :
    (clock : String → ℕ) (b : String) (r : InstanceRegistry)
    (s : InstanceRegistry × List Registry.InstanceInfo)
    → Registry.get_all_instances clock r ≡ ok s
    → get_active_requests b s.0 ≡ get_active_requests b r
unfolding Registry.get_all_instances
all-active clock b r s h = infos-active clock (Dict.keys r.instances) b r s h

pub info-known :
    (now : ℕ) (a b : String) (r : InstanceRegistry) (s : InstanceRegistry × Registry.InstanceInfo)
    → get_instance_info now a r ≡ ok s
    → known b r ≡ true
    → known b s.0 ≡ true
unfolding get_instance_info get_instance
info-known now a b r s h k = elim (Option-cases (Dict.get r.instances a)) [
  | inl missing ↦ ground arith
  | inr (j, found) ↦ ground (
    arith,
    Dict.has-set r.instances a b
        (record j { circuit_breaker = CircuitBreaker.current_state now j.circuit_breaker }),
  )
]

pub success-known :
    (now : ℕ) (a b : String) (r r' : InstanceRegistry)
    → Registry.record_success now a r ≡ ok r'
    → known b r ≡ true
    → known b r' ≡ true
unfolding Registry.record_success get_instance
success-known now a b r r' h k = elim (Option-cases (Dict.get r.instances a)) [
  | inl missing ↦ ground arith
  | inr (j, found) ↦ ground (
    arith,
    Dict.has-set r.instances a b
        (record j { circuit_breaker = CircuitBreaker.record_success now j.circuit_breaker }),
  )
]

pub failure-known :
    (now later : ℕ) (a b : String) (r r' : InstanceRegistry)
    → Registry.record_failure now later a r ≡ ok r'
    → known b r ≡ true
    → known b r' ≡ true
unfolding Registry.record_failure get_instance
failure-known now later a b r r' h k = elim (Option-cases (Dict.get r.instances a)) [
  | inl missing ↦ ground arith
  | inr (j, found) ↦ ground (
    arith,
    Dict.has-set r.instances a b
        (record j { circuit_breaker = CircuitBreaker.record_failure now later j.circuit_breaker }),
  )
]

pub failure-active :
    (now later : ℕ) (a b : String) (r r' : InstanceRegistry)
    → Registry.record_failure now later a r ≡ ok r'
    → get_active_requests b r' ≡ get_active_requests b r
unfolding Registry.record_failure get_instance
failure-active now later a b r r' h = elim (Option-cases (Dict.get r.instances a)) [
  | inl missing ↦ ground arith
  | inr (j, found) ↦ ground (
    arith,
    active-count_of b r,
    active-count_of b r',
    Dict.get-set r.instances a b
        (record j { circuit_breaker = CircuitBreaker.record_failure now later j.circuit_breaker }),
  )
]

-- An outcome is recorded for a known address.
pub success_total :
    (now : ℕ) (a : String) (r : InstanceRegistry)
    → known a r ≡ true
    → (r' : InstanceRegistry) × (Registry.record_success now a r ≡ ok r')
unfolding Registry.record_success
success_total now a r h =
    let (i, found) = Dict.get_of-has r.instances a h in
    (
      put_instance a
          (record i { circuit_breaker = CircuitBreaker.record_success now i.circuit_breaker }) r,
      ground arith,
    )

pub failure_total :
    (now later : ℕ) (a : String) (r : InstanceRegistry)
    → known a r ≡ true
    → (r' : InstanceRegistry) × (Registry.record_failure now later a r ≡ ok r')
unfolding Registry.record_failure
failure_total now later a r h =
    let (i, found) = Dict.get_of-has r.instances a h in
    (
      put_instance a
          (record i { circuit_breaker = CircuitBreaker.record_failure now later i.circuit_breaker })
          r,
      ground arith,
    )
