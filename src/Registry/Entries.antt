-- ===== src/Registry/Entries.antt =====
-- xpyd/registry.py: what each call does to the record of one address. The registry is a family of
-- records that do not influence one another.
use micro_pdproxy.Base.{
  ℕ, ◌+◌, ◌-◌, ◌≡◌, ◌≢◌, refl, String, Bool, true, false, some, List, [], ◌∷◌, ok, or_unchanged,
  Ensures, Ensures-bind, or_unchanged_keeps, ◌∙◌, ap, ◌>>=◌, arith, Option-cases, inl, inr, ◌==◌,
  if◌then◌else◌, contains, Distinct,
}
use micro_pdproxy.Base.Dict
use micro_pdproxy.Base.Dict.{Dict}
use micro_pdproxy.CircuitBreaker
use micro_pdproxy.CircuitBreaker.{current_state}
use micro_pdproxy.Registry
use micro_pdproxy.Registry.{
  InstanceInfo, InstanceRecord, InstanceRegistry, draining, healthy, unhealthy, get_instance,
  put_instance, consider, scan, info_of_all, unless_draining, snapshot,
}
use micro_pdproxy.Registry.Calls.{
  Call, add, remove, begin_draining, update_model, mark_healthy, mark_unhealthy, record_success,
  record_failure, increment_active_requests, decrement_active_requests, get_available_instances,
  get_aggregated_instances, get_instance_info, get_all_instances, effect, step, run, None, removes,
}
use micro_pdproxy.Registry.Invariant.{IsValid, step-IsValid}

abbrev pub read_state : ℕ → InstanceRecord → InstanceRecord
read_state now i = record i { circuit_breaker = current_state now i.circuit_breaker }

-- The record of `k` after a call that does not remove it.
unfoldable pub after : Bool → Call → String → InstanceRecord → InstanceRecord
after cb_enabled (add role a model) k i = i
after cb_enabled (remove a) k i = i
after cb_enabled (begin_draining role a) k i =
    if a == k then (if i.role == role then record i { status = draining } else i) else i
after cb_enabled (update_model a model) k i = if a == k then record i { model = model } else i
after cb_enabled (mark_healthy now a) k i =
    if a == k
    then record i { status = unless_draining i.status healthy; last_health_check = some now }
    else i
after cb_enabled (mark_unhealthy now a) k i =
    if a == k
    then record i { status = unless_draining i.status unhealthy; last_health_check = some now }
    else i
after cb_enabled (record_success now a) k i =
    if a == k
    then record i { circuit_breaker = CircuitBreaker.record_success now i.circuit_breaker }
    else i
after cb_enabled (record_failure now later a) k i =
    if a == k
    then record i { circuit_breaker = CircuitBreaker.record_failure now later i.circuit_breaker }
    else i
after cb_enabled (increment_active_requests a) k i =
    if a == k then record i { active_request_count = i.active_request_count + 1 } else i
after cb_enabled (decrement_active_requests a) k i =
    if a == k then record i { active_request_count = i.active_request_count - 1 } else i
after cb_enabled (get_available_instances clock role model) k i =
    (consider cb_enabled role model (clock k) i).0
after cb_enabled (get_aggregated_instances clock model) k i =
    (consider cb_enabled "aggregated" model (clock k) i).0
after cb_enabled (get_instance_info now a) k i = if a == k then read_state now i else i
after cb_enabled (get_all_instances clock) k i = read_state (clock k) i

modify-get :
    (r : InstanceRegistry) (a k : String) (f : InstanceRecord → InstanceRecord) (i : InstanceRecord)
    → Dict.get r.instances k ≡ some i
    → Dict.get (or_unchanged r (get_instance a r >>= λ j. ok (put_instance a (f j) r))).instances k
      ≡ some (if a == k then f i else i)
unfolding get_instance
modify-get r a k f i h = elim (Option-cases (Dict.get r.instances a)) [
  | inl missing ↦ ground arith
  | inr (j, found) ↦ ground (arith, Dict.get-set r.instances a k (f j))
]

add-get :
    (r : InstanceRegistry) (role a model k : String) (i : InstanceRecord)
    → Dict.get r.instances k ≡ some i
    → Dict.get (step r (add role a model)).instances k ≡ some i
unfolding effect Registry.add
add-get r role a model k i h = ground (
  arith,
  Dict.get-set r.instances a k (Registry.new_record r role a model),
  Dict.has_of-get r.instances k i h,
)

remove-get :
    (r : InstanceRegistry) (a k : String) (i : InstanceRecord)
    → IsValid r
    → a ≢ k
    → Dict.get r.instances k ≡ some i
    → Dict.get (step r (remove a)).instances k ≡ some i
unfolding effect Registry.remove
remove-get r a k i v other h = ground (arith, Dict.get-delete r.instances a k v.distinct)

begin_draining-get :
    (r : InstanceRegistry) (role a k : String) (i : InstanceRecord)
    → Dict.get r.instances k ≡ some i
    → Dict.get (step r (begin_draining role a)).instances k
      ≡ some (after r.cb_enabled (begin_draining role a) k i)
unfolding effect after Registry.begin_draining
begin_draining-get r role a k i h = elim (Option-cases (Dict.get r.instances a)) [
  | inl missing ↦ ground arith
  | inr (j, found) ↦ ground (arith, Dict.get-set r.instances a k (record j { status = draining }))
]

scan-get :
    (cb_enabled : Bool) (role model : String) (clock : String → ℕ) (d : Dict InstanceRecord)
    (k : String) (i : InstanceRecord)
    → Dict.get d k ≡ some i
    → Dict.get (scan cb_enabled role model clock d).0 k
      ≡ some (consider cb_enabled role model (clock k) i).0
unfolding scan Dict.get
scan-get cb_enabled role model clock [] k i h = ground arith
scan-get cb_enabled role model clock ((j, x) ∷ d) k i h =
    ground (arith, scan-get cb_enabled role model clock d k i)

pub get_instance_info_found :
    (r : InstanceRegistry) (now : ℕ) (a : String) (i : InstanceRecord)
    → Dict.get r.instances a ≡ some i
    → Registry.get_instance_info now a r
      ≡ ok (put_instance a (read_state now i) r, snapshot (read_state now i))
unfolding Registry.get_instance_info
get_instance_info_found r now a i h = ground arith

get_instance_info-get :
    (r : InstanceRegistry) (now : ℕ) (a k : String) (i : InstanceRecord)
    → Dict.get r.instances k ≡ some i
    → Dict.get (step r (get_instance_info now a)).instances k
      ≡ some (if a == k then read_state now i else i)
unfolding effect Registry.get_instance_info
get_instance_info-get r now a k i h = elim (Option-cases (Dict.get r.instances a)) [
  | inl missing ↦ ground arith
  | inr (j, found) ↦ ground (arith, Dict.get-set r.instances a k (read_state now j))
]

pub info_of_all_cons :
    (clock : String → ℕ) (a : String) (ks : List String) (r r' r'' : InstanceRegistry)
    (x : InstanceInfo) (xs : List InstanceInfo)
    → Registry.get_instance_info (clock a) a r ≡ ok (r', x)
    → info_of_all clock ks r' ≡ ok (r'', xs)
    → info_of_all clock (a ∷ ks) r ≡ ok (r'', x ∷ xs)
unfolding info_of_all
info_of_all_cons clock a ks r r' r'' x xs e f = rw (e, ◌>>=◌, f)

-- Each address of `ks` is a key.
abbrev pub AllPresent : List String → Dict InstanceRecord → Type 0
AllPresent ks d = (j : String) → contains ks j ≡ true → Dict.has d j ≡ true

info_of_all-get :
    (clock : String → ℕ) (ks : List String) (r : InstanceRegistry) (k : String) (i : InstanceRecord)
    → AllPresent ks r.instances
    → Distinct ks
    → Dict.get r.instances k ≡ some i
    → (p : InstanceRegistry × List InstanceInfo) × (info_of_all clock ks r ≡ ok p)
      × (Dict.get p.0.instances k ≡ some (if contains ks k then read_state (clock k) i else i))
info_of_all-get clock [] r k i here d h = ((r, []), unfold info_of_all in refl, h)
info_of_all-get clock (a ∷ ks) r k i here d h =
    let (j, found) = Dict.get_of-has r.instances a (here a (ground arith)) in
    let r' : InstanceRegistry = put_instance a (read_state (clock a) j) r in
    let i' : InstanceRecord = if a == k then read_state (clock k) i else i in
    let (p, result, got) =
      info_of_all-get clock ks r' k i'
        (λ x m. ground (arith, here x, Dict.has-set r.instances a x (read_state (clock a) j))) d.1
        (ground (arith, Dict.get-set r.instances a k (read_state (clock a) j))) in
    (
      (p.0, snapshot (read_state (clock a) j) ∷ p.1),
      info_of_all_cons clock a ks r r' p.0 (snapshot (read_state (clock a) j)) p.1
          (get_instance_info_found r (clock a) a j found) result,
      ground (arith, d.0),
    )

get_all_instances-get :
    (r : InstanceRegistry) (clock : String → ℕ) (k : String) (i : InstanceRecord)
    → IsValid r
    → Dict.get r.instances k ≡ some i
    → Dict.get (step r (get_all_instances clock)).instances k ≡ some (read_state (clock k) i)
unfolding effect Registry.get_all_instances
get_all_instances-get r clock k i v h =
    let (p, result, got) =
      info_of_all-get clock (Dict.keys r.instances) r k i
        (λ j m. ground (arith, Dict.has-eq-contains r.instances j)) v.distinct h in
    ground
      (arith, result, got, Dict.has-eq-contains r.instances k, Dict.has_of-get r.instances k i h)

-- A call, raising or not, changes the record of an address that it does not remove as `after` says,
-- whatever the other records are.
pub step-get :
    (r : InstanceRegistry) (c : Call) (k : String) (i : InstanceRecord)
    → IsValid r
    → removes c k ≡ false
    → Dict.get r.instances k ≡ some i
    → Dict.get (step r c).instances k ≡ some (after r.cb_enabled c k i)
unfolding effect after Registry.update_model Registry.mark_healthy Registry.mark_unhealthy
    Registry.record_success Registry.record_failure Registry.increment_active_requests
    Registry.decrement_active_requests Registry.get_available_instances
    Registry.get_aggregated_instances
step-get r (add role a model) k i v s h = add-get r role a model k i h
step-get r (remove a) k i v s h = remove-get r a k i v (ground arith) h
step-get r (begin_draining role a) k i v s h = begin_draining-get r role a k i h
step-get r (update_model a model) k i v s h = modify-get r a k (λ j. record j { model = model }) i h
step-get r (mark_healthy now a) k i v s h = modify-get r a k _ i h
step-get r (mark_unhealthy now a) k i v s h = modify-get r a k _ i h
step-get r (record_success now a) k i v s h = modify-get r a k _ i h
step-get r (record_failure now later a) k i v s h = modify-get r a k _ i h
step-get r (increment_active_requests a) k i v s h = modify-get r a k _ i h
step-get r (decrement_active_requests a) k i v s h = modify-get r a k _ i h
step-get r (get_available_instances clock role model) k i v s h =
    scan-get r.cb_enabled role model clock r.instances k i h
step-get r (get_aggregated_instances clock model) k i v s h =
    scan-get r.cb_enabled "aggregated" model clock r.instances k i h
step-get r (get_instance_info now a) k i v s h = get_instance_info-get r now a k i h
step-get r (get_all_instances clock) k i v s h = get_all_instances-get r clock k i v h

abbrev SameSwitch {ℓ} : {A : Type ℓ} → Bool → InstanceRegistry × A → Type 0
SameSwitch cb_enabled p = p.0.cb_enabled ≡ cb_enabled

info-cb_enabled :
    (cb_enabled : Bool) (r : InstanceRegistry) (now : ℕ) (a : String)
    → r.cb_enabled ≡ cb_enabled
    → Ensures (SameSwitch cb_enabled) (Registry.get_instance_info now a r)
unfolding Registry.get_instance_info
info-cb_enabled cb_enabled r now a e = ground arith

infos-cb_enabled :
    (cb_enabled : Bool) (clock : String → ℕ) (ks : List String) (r : InstanceRegistry)
    → r.cb_enabled ≡ cb_enabled
    → Ensures (SameSwitch cb_enabled) (info_of_all clock ks r)
unfolding info_of_all
infos-cb_enabled b clock [] r e = e
infos-cb_enabled b clock (a ∷ ks) r e =
    let P = SameSwitch {A = InstanceInfo} b in
    let Q = SameSwitch {A = List InstanceInfo} b in
    Ensures-bind P Q (Registry.get_instance_info (clock a) a r) _
      (info-cb_enabled b r (clock a) a e)
      (λ p f.
        Ensures-bind Q Q (info_of_all clock ks p.0) _ (infos-cb_enabled b clock ks p.0 f)
          (λ q g. g))

cb_enabled-effect :
    (r : InstanceRegistry) (c : Call) → Ensures (λ r'. r'.cb_enabled ≡ r.cb_enabled) (effect r c)
unfolding effect Registry.add Registry.remove Registry.begin_draining Registry.update_model
    Registry.mark_healthy Registry.mark_unhealthy Registry.record_success Registry.record_failure
    Registry.increment_active_requests Registry.decrement_active_requests
    Registry.get_available_instances Registry.get_aggregated_instances Registry.get_all_instances
    Registry.get_instance_info
cb_enabled-effect r (get_all_instances clock) =
    Ensures-bind (SameSwitch {A = List InstanceInfo} r.cb_enabled) _
      (info_of_all clock (Dict.keys r.instances) r) _
      (infos-cb_enabled r.cb_enabled clock (Dict.keys r.instances) r refl) (λ p e. e)
cb_enabled-effect r _ = ground arith

pub cb_enabled-step : (r : InstanceRegistry) (c : Call) → (step r c).cb_enabled ≡ r.cb_enabled
cb_enabled-step r c =
    or_unchanged_keeps (λ r'. r'.cb_enabled ≡ r.cb_enabled) r (effect r c) refl
      (cb_enabled-effect r c)

-- What a sequence of calls does to the record of an address that none of them removes.
unfoldable pub afters : Bool → List Call → String → InstanceRecord → InstanceRecord
afters cb_enabled [] k i = i
afters cb_enabled (c ∷ calls) k i = afters cb_enabled calls k (after cb_enabled c k i)

run-get_with :
    (cb_enabled : Bool) (r : InstanceRegistry) (calls : List Call) (k : String) (i : InstanceRecord)
    → r.cb_enabled ≡ cb_enabled
    → IsValid r
    → None (λ c. removes c k) calls
    → Dict.get r.instances k ≡ some i
    → Dict.get (run r calls).instances k ≡ some (afters cb_enabled calls k i)
unfolding run afters
run-get_with b r [] k i e v s h = h
run-get_with b r (c ∷ calls) k i e v s h =
    run-get_with b (step r c) calls k (after b c k i) (cb_enabled-step r c ∙ e) (step-IsValid r c v)
      s.1 (step-get r c k i v s.0 h ∙ ap (λ x. some (after x c k i)) e)

-- After any sequence of calls, raising or not, of which none removes a registered address, its
-- record is what the calls' effects on that record alone have made of it, whatever happened to the
-- other instances.
pub run-get :
    (r : InstanceRegistry) (calls : List Call) (k : String) (i : InstanceRecord)
    → IsValid r
    → None (λ c. removes c k) calls
    → Dict.get r.instances k ≡ some i
    → Dict.get (run r calls).instances k ≡ some (afters r.cb_enabled calls k i)
run-get r calls k i v s h = run-get_with r.cb_enabled r calls k i refl v s h

pub cb_enabled-run :
    (r : InstanceRegistry) (calls : List Call) → (run r calls).cb_enabled ≡ r.cb_enabled
unfolding run
cb_enabled-run r [] = refl
cb_enabled-run r (c ∷ calls) = cb_enabled-run (step r c) calls ∙ cb_enabled-step r c
