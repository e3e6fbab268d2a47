-- ===== src/Registry/Draining.antt =====
-- xpyd/registry.py: an instance that drains gets no new request.
use micro_pdproxy.Base.{
  ℕ, ◌≡◌, refl, ap, ◌∙◌, String, Bool, false, some, List, [], ◌∷◌, arith, contains,
}
use micro_pdproxy.Base.Dict
use micro_pdproxy.Registry.{
  InstanceRecord, InstanceRegistry, draining, consider, get_available_instances,
}
use micro_pdproxy.Registry.Calls.{Call, begin_draining, step, run, None, removes}
use micro_pdproxy.Registry.Invariant.{IsValid, step-IsValid, registry_run-IsValid}
use micro_pdproxy.Registry.Entries.{after, afters, step-get, run-get}
use micro_pdproxy.Registry.Availability.{available?, available-contains}

after-draining :
    (cb_enabled : Bool) (c : Call) (k : String) (i : InstanceRecord)
    → i.status ≡ draining
    → (after cb_enabled c k i).status ≡ draining
unfolding after consider
after-draining cb_enabled c k i h = ground arith

afters-draining :
    (cb_enabled : Bool) (calls : List Call) (k : String) (i : InstanceRecord)
    → i.status ≡ draining
    → (afters cb_enabled calls k i).status ≡ draining
unfolding afters
afters-draining cb_enabled [] k i h = h
afters-draining cb_enabled (c ∷ calls) k i h =
    afters-draining cb_enabled calls k (after cb_enabled c k i) (after-draining cb_enabled c k i h)

begin_draining-status :
    (cb_enabled : Bool) (k : String) (i : InstanceRecord)
    → (after cb_enabled (begin_draining i.role k) k i).status ≡ draining
unfolding after
begin_draining-status cb_enabled k i = ground arith

not-available :
    (cb_enabled : Bool) (role model : String) (now : ℕ) (i : InstanceRecord)
    → i.status ≡ draining
    → available? cb_enabled role model now (some i) ≡ false
not-available cb_enabled role model now i h = ground arith

-- Once an instance has begun to drain, it is in the answer to no query for available instances,
-- whatever calls come in between, health reports included, as long as none removes it.
pub draining_excluded :
    (r : InstanceRegistry) (k : String) (i : InstanceRecord) (calls : List Call)
    (clock : String → ℕ) (role model : String)
    → IsValid r
    → Dict.get r.instances k ≡ some i
    → None (λ c. removes c k) calls
    → contains
        (get_available_instances clock role model (run (step r (begin_draining i.role k)) calls)).1
        k
      ≡ false
draining_excluded r k i calls clock role model v h s =
    let c = begin_draining i.role k in
    let r' = step r c in
    let j = after r.cb_enabled c k i in
    let found = run-get r' calls k j (step-IsValid r c v) s (step-get r c k i v refl h) in
    let settled =
      afters-draining r'.cb_enabled calls k j (begin_draining-status r.cb_enabled k i) in
    (available-contains clock role model (run r' calls) k
      (registry_run-IsValid r' calls (step-IsValid r c v))).0
    ∙ ap (available? (run r' calls).cb_enabled role model (clock k)) found
    ∙ not-available (run r' calls).cb_enabled role model (clock k) (afters r'.cb_enabled calls k j)
        settled
