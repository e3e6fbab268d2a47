-- ===== src/Proxy/Members/Entered.antt =====
-- xpyd/proxy.py: what `add_instance` does to every list of instances.
use micro_pdproxy.Proxy.Members.Restored.{Steady}
use micro_pdproxy.Proxy.Members.Added.{Paired, add_instance-Paired, missing-has}
use micro_pdproxy.Proxy.Members.Lists.{
  listed_for, lists, Grown, join-Grown, listed-set_default, set_default-Distinct,
}
use micro_pdproxy.Base.Dict
use micro_pdproxy.Base.Dict.{Dict}
use micro_pdproxy.Base.{
  none, some, ℕ, String, ◌≡◌, refl, ap, ◌∙◌, inl, inr, Bool, true, false, ◌&&◌, Option, some, [],
  ◌∷◌, ◌++◌, arith, if◌then◌else◌, ◌==◌, Result, ok, raise, contains, Option-cases, Result-cases,
  ◌>>=◌, Error, Distinct,
}
use micro_pdproxy.Base.Action.{resume, fail}
use micro_pdproxy.Base.Dict
use micro_pdproxy.Base.Dict.{Dict}
use micro_pdproxy.Registry as Registry
use micro_pdproxy.Registry.{InstanceRegistry, get_active_requests, is_role}
use micro_pdproxy.Scheduler.LoadBalanced.{LoadBalancedScheduler}
use micro_pdproxy.Proxy.Members.{join, enter, settle_join, set_default, add_instance, Stage}
use micro_pdproxy.Proxy.Members.View.{view}
use micro_pdproxy.Proxy.Members.Restored.{Steady}
use micro_pdproxy.Proxy.{Proxy, with_registry}
use micro_pdproxy.Proxy.Policies.{World, load_balanced}

-- The name of the model that the instance has.
abbrev pub model_of : Option (String × ℕ) → String
model_of none = ""
model_of (some d) = d.0

-- The aggregated instances of each model.
abbrev Listed : String → String → String → Proxy → Proxy × Result Bool → Type 0
Listed role address model p (q, raise e) =
    (m : String) → listed_for m (lists q) ≡ listed_for m (lists p)
Listed role address model p (q, ok false) =
    (m : String) → listed_for m (lists q) ≡ listed_for m (lists p)
Listed role address model p (q, ok true) =
    (m : String)
    → listed_for m (lists q) ≡ (
        if role == "aggregated" && model == m
        then listed_for m (lists p) ++ (address ∷ [])
        else listed_for m (lists p))

lists-with_registry :
    (f : InstanceRegistry → Result InstanceRegistry) (p : Proxy)
    → lists (with_registry f p).0 ≡ lists p
unfolding with_registry
lists-with_registry f p = elim (Option-cases p.registry) [
  | inl missing ↦ rw missing refl
  | inr (r, found) ↦ elim (Result-cases (f r)) [
    | inl (r', done) ↦ rw (with_registry, found, done) refl
    | inr (e, failed) ↦ rw (with_registry, found, failed) refl
  ]
]

fail-Listed :
    (role address model : String) (p : Proxy) (e : Error) (out : Proxy × Result {0} Unit)
    → ((m : String) → listed_for m (lists out.0) ≡ listed_for m (lists p))
    → Listed role address model p (resume out (λ u. fail e))
fail-Listed role address model p e (q, ok u) h = h
fail-Listed role address model p e (q, raise e') h = h

-- `q` is the proxy with the model's list set to its default.
settle_join-Listed :
    (w : World) (role address model : String) (p q : Proxy) (out : Proxy × Result {0} Unit)
    → ((m : String) → listed_for m (lists q) ≡ listed_for m (lists p))
    → Grown w role address model q out
    → Listed role address model p (settle_join address out)
settle_join-Listed w role address model p q (q', ok u) same h =
    λ m. ground (arith, h m, same m, same model)
settle_join-Listed w role address model p q (q', raise e) same h =
    fail-Listed role address model p e (with_registry (Registry.remove address) q')
      (λ m. ap (listed_for m) (lists-with_registry (Registry.remove address) q') ∙ (h m ∙ same m))

module _ (w : World) (role address : String) (p : Proxy)
    (once : Distinct (Dict.keys (lists p))) where
  enter-Listed :
      (model : String) (n : ℕ) (fault : Option Stage) (r : InstanceRegistry)
      → contains (listed_for model (lists p)) address ≡ false
      → Listed role address model p (enter w role address model n fault r p)
  enter-Listed model n fault r new =
      elim (Result-cases
        (Registry.add role address model r >>= Registry.mark_healthy (w.clock address) address)) [
          | inl (r', done) ↦
              let q : Proxy = record (set_default role model p) { registry = some r' } in
              rw (enter, done)
                (settle_join-Listed w role address model p q (join w role address model n fault q)
                  (listed-set_default w role address model p)
                  (join-Grown w role address model q
                    (set_default-Distinct w role address model p once)
                    (ap (λ xs. contains xs address)
                        (listed-set_default w role address model p model)
                      ∙ new)
                    n fault))
          | inr (e, failed) ↦ rw (enter, failed) (listed-set_default w role address model p)
        ]

  add_instance-Listed :
      (details : Option (String × ℕ)) (fault : Option Stage)
      → ((r : InstanceRegistry)
          → p.registry ≡ some r
          → Dict.has r.instances address ≡ false
          → contains (listed_for (model_of details) (lists p)) address ≡ false)
      → Listed role address (model_of details) p (add_instance w role address details fault p)
  unfolding add_instance
  add_instance-Listed none fault listed = elim (Option-cases p.registry) [
    | inl missing ↦ rw (add_instance, missing) (λ m. refl)
    | inr (r, found) ↦ rw (add_instance, found) (λ m. refl)
  ]
  add_instance-Listed (some d) fault listed = elim (Option-cases p.registry) [
    | inl missing ↦ rw (add_instance, missing) (λ m. refl)
    | inr (r, found) ↦
        elim (Result-cases (Registry.get_instance_info (w.clock address) address r)) [
          | inl (known, present) ↦ rw (add_instance, found, present) (λ m. refl)
          | inr (e, absent) ↦
              rw (add_instance, found, absent)
                (enter-Listed d.0 d.1 fault r
                  (listed r found (missing-has address (w.clock address) r e absent)))
        ]
  ]

-- What the caller of `add_instance` finds. The instance is at the end of the list of its role, of its
-- model where it is aggregated, and every other list is as it was, or all lists are as they were.
abbrev pub Outcome : String → String → String → Proxy → Proxy × Result Bool → Type 0
Outcome role address model p (q, raise e) =
    (view q ≡ view p) × ((m : String) → listed_for m (lists q) ≡ listed_for m (lists p))
Outcome role address model p (q, ok false) =
    (view q ≡ view p) × ((m : String) → listed_for m (lists q) ≡ listed_for m (lists p))
Outcome role address model p (q, ok true) =
    (q.prefill_instances
      ≡ (if role == "prefill" then p.prefill_instances ++ (address ∷ []) else p.prefill_instances))
    × (q.decode_instances
        ≡ (if role == "decode" then p.decode_instances ++ (address ∷ []) else p.decode_instances))
    × ((m : String)
        → listed_for m (lists q) ≡ (
            if role == "aggregated" && model == m
            then listed_for m (lists p) ++ (address ∷ [])
            else listed_for m (lists p)))
    × Steady (view q)

both_parts :
    (role address model : String) (p : Proxy) (out : Proxy × Result Bool)
    → Paired role address p out
    → Listed role address model p out
    → Outcome role address model p out
both_parts role address model p (q, raise e) h k = (h, k)
both_parts role address model p (q, ok false) h k = (h, k)
both_parts role address model p (q, ok true) (prefill, decode, steady) k =
    (prefill, decode, k, steady)

-- With the least-loaded scheduler, whose lists are the proxy's, list no instance twice and match its
-- arrays, and for an address that the proxy lists only if the registry has it: where `add_instance`
-- returns true, the address is at the end of the list of its role, for an aggregated instance of the
-- list of its model, no other list has changed, and the scheduler's lists and arrays still match.
-- Where it returns false or raises, whatever the stage at which an exception comes, all lists, those
-- of the aggregated instances of every model included, and the scheduler are the ones of before.
pub add_instance-Outcome :
    (w : World) (role address : String) (details : Option (String × ℕ)) (fault : Option Stage)
    (p : Proxy) (s : LoadBalancedScheduler)
    → p.scheduling_policy ≡ load_balanced s
    → Steady (view p)
    → Distinct (Dict.keys (lists p))
    → ((r : InstanceRegistry)
        → p.registry ≡ some r
        → Dict.has r.instances address ≡ false
        → (contains p.prefill_instances address ≡ false)
          × (contains p.decode_instances address ≡ false)
          × (contains (listed_for (model_of details) (lists p)) address ≡ false))
    → Outcome role address (model_of details) p (add_instance w role address details fault p)
add_instance-Outcome w role address details fault p s loads steady once new =
    both_parts role address (model_of details) p (add_instance w role address details fault p)
      (add_instance-Paired w role address p s loads steady details fault
        (λ r found missing. ((new r found missing).0, (new r found missing).1)))
      (add_instance-Listed w role address p once details fault
        (λ r found missing. (new r found missing).2))
