-- ===== src/Proxy/Chosen/Schedule.antt =====
-- xpyd/proxy.py: `schedule` returns only an instance that the registry answered.
use micro_pdproxy.Base.{
  String, ◌≡◌, refl, sym, ap, ◌∙◌, inl, inr, Bool, true, Option, none, some, List, arith,
  if◌then◌else◌, Result, ok, raise, contains, Option-cases, Result-cases, if-intro,
}
use micro_pdproxy.Base.Action.{resume}
use micro_pdproxy.Registry
use micro_pdproxy.Registry.{InstanceRegistry}
use micro_pdproxy.Proxy.Policies.{World, Policy, choose}
use micro_pdproxy.Proxy.{
  count_request, schedule, Proxy, Demand, role_of, policy_schedule, chosen_by, ask_registry,
  uses_round_robin_fallback, round_robin,
}
use micro_pdproxy.Scheduler.PowerOfTwo.Choice.{Draws}
use micro_pdproxy.Proxy.Chosen.Available.{IsSound, choose-Allowed}

counted_same : (p : Proxy) (a b : String) → (count_request (some b) p).1 ≡ ok (some a) → b ≡ a
unfolding count_request
counted_same p a b h = elim (Option-cases p.registry) [
  | inl missing ↦ ground arith
  | inr (r, there) ↦ elim (Result-cases (Registry.increment_active_requests b r)) [
    | inl (r', done) ↦ ground arith
    | inr (e, failed) ↦ ground arith
  ]
]

counted-Allowed :
    (m : Proxy × Result (Option String)) (a : String)
    → (resume m count_request).1 ≡ ok (some a)
    → m.1 ≡ ok (some a)
unfolding count_request
counted-Allowed (p, raise e) a k = ground arith
counted-Allowed (p, ok none) a k = ground arith
counted-Allowed (p, ok (some b)) a k = ap (λ x. ok (some x)) (counted_same p a b k)

-- What the policy chose, if the call returned it.
chosen_by_lem :
    (fallback is_prompt : Bool) (p : Proxy) (m : Result (Policy × List String × Option String))
    (a : String)
    → (resume (p, m) (chosen_by fallback is_prompt)).1 ≡ ok (some a)
    → (q : Policy × List String × Option String) × (m ≡ ok q) × (q.2 ≡ some a)
chosen_by_lem fallback is_prompt p (raise e) a h = absurd (ground arith)
chosen_by_lem fallback is_prompt p (ok q) a h = (q, refl, ground arith)

-- An instance that `schedule` returns is one of those that the registry answered for the role and
-- the model, for every policy. The assumptions are that the arrays of a least-loaded scheduler match
-- its instances and that `random.sample` draws from its list.
pub schedule-available :
    (w : World) (is_prompt : Bool) (d : Demand) (p : Proxy) (r : InstanceRegistry) (a : String)
    → Draws w.sample
    → IsSound p.scheduling_policy
    → p.registry ≡ some r
    → (schedule w is_prompt d p).1 ≡ ok (some a)
    → contains (Registry.get_available_instances w.clock (role_of is_prompt) d.model r).1 a ≡ true
unfolding schedule policy_schedule ask_registry
schedule-available w is_prompt d p r a draws sound h k =
    let fallback = uses_round_robin_fallback d.model p in
    let policy : Policy = if fallback then round_robin else p.scheduling_policy in
    let cycler : List String = if is_prompt then p.prefill_cycler else p.decode_cycler in
    let asked = ask_registry w.clock (role_of is_prompt) d.model p.registry in
    let answer = Registry.get_available_instances w.clock (role_of is_prompt) d.model r in
    let m = policy_schedule w is_prompt d p in
    let (q, chose, same) =
      chosen_by_lem fallback is_prompt (record p { registry = asked.0 })
        (choose w asked.0 asked.1 is_prompt d.request_len d.max_tokens d.context d.prompt cycler
          policy)
        a (counted-Allowed m a k) in
    let given : choose w asked.0 asked.1 is_prompt d.request_len d.max_tokens d.context d.prompt
          cycler policy
        ≡ choose w (some answer.0) (some answer.1) is_prompt d.request_len d.max_tokens d.context
            d.prompt cycler policy =
      ap
        (λ o.
          choose w (ask_registry w.clock (role_of is_prompt) d.model o).0
            (ask_registry w.clock (role_of is_prompt) d.model o).1 is_prompt d.request_len
            d.max_tokens d.context d.prompt cycler policy)
        h in
    choose-Allowed w answer.0 answer.1 draws is_prompt d.request_len d.max_tokens d.context d.prompt
      cycler policy a q (if-intro IsSound fallback tt sound) (sym given ∙ chose) same
