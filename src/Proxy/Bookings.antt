-- ===== src/Proxy/Bookings.antt =====
-- xpyd/proxy.py: the numbers of active requests, which `schedule` raises and which the end of a
-- request lowers.
use micro_pdproxy.Base.{
  ℕ, ◌+◌, ◌≡◌, refl, ◌∙◌, String, Bool, true, false, Option, none, some, Result, ok, raise,
  if◌then◌else◌, arith, Result-cases, inl, inr, ap,
}
use micro_pdproxy.Base.Action.{resume, resume_keeps}
use micro_pdproxy.Registry
use micro_pdproxy.Registry.{InstanceRegistry, get_active_requests}
use micro_pdproxy.Registry.Counts.{
  available-active, increment-active, one_if, known, available-known, increment-known,
  incremented-known,
}
use micro_pdproxy.Proxy.{
  Proxy, Demand, schedule, policy_schedule, count_request, ask_registry, role_of,
  uses_round_robin_fallback, choose, round_robin, chosen_by,
}
use micro_pdproxy.Proxy.Policies.{World}

abbrev pub active_in : String → Option InstanceRegistry → ℕ
active_in a none = 0
active_in a (some r) = get_active_requests a r

abbrev pub active : String → Proxy → ℕ
active a p = active_in a p.registry

-- How many requests the outcome of a call has booked on an instance.
abbrev pub booked : String → Result (Option String) → ℕ
booked a (raise e) = 0
booked a (ok none) = 0
booked a (ok (some b)) = one_if b a

-- The registry, if there is one, has the address.
abbrev pub known_in : String → Option InstanceRegistry → Bool
known_in a none = false
known_in a (some r) = known a r

abbrev pub HasRegistry : Proxy → Type 0
HasRegistry p = (r : InstanceRegistry) × (p.registry ≡ some r)

policy_schedule-registry :
    (w : World) (is_prompt : Bool) (d : Demand) (p : Proxy)
    → (policy_schedule w is_prompt d p).0.registry
      ≡ (ask_registry w.clock (role_of is_prompt) d.model p.registry).0
unfolding policy_schedule
policy_schedule-registry w is_prompt d p =
    let fallback = uses_round_robin_fallback d.model p in
    let asked = ask_registry w.clock (role_of is_prompt) d.model p.registry in
    resume_keeps (λ q. q.registry ≡ asked.0)
      (
        record p { registry = asked.0 },
        choose w asked.0 asked.1 is_prompt d.request_len d.max_tokens d.context d.prompt
            (if is_prompt then p.prefill_cycler else p.decode_cycler)
            (if fallback then round_robin else p.scheduling_policy),
      )
      (chosen_by fallback is_prompt) refl (λ a s h. h)

-- Asking the registry changes no count and no address.
ask_registry_lem :
    (clock : String → ℕ) (role model : String) (o : Option InstanceRegistry) (a : String)
    → (active_in a (ask_registry clock role model o).0 ≡ active_in a o)
      × (known_in a (ask_registry clock role model o).0 ≡ known_in a o)
unfolding ask_registry
ask_registry_lem clock role model none a = (refl, refl)
ask_registry_lem clock role model (some r) a =
    (available-active clock role model r a, available-known clock role model r a)

ask_registry-some :
    (clock : String → ℕ) (role model : String) (r : InstanceRegistry)
    → (ask_registry clock role model (some r)).0
      ≡ some (Registry.get_available_instances clock role model r).0
unfolding ask_registry
ask_registry-some clock role model r = refl

-- What counting the choice does to the counts and to the addresses that are known.
count_request_lem :
    (o : Option String) (p : Proxy) (r : InstanceRegistry) (a : String)
    → p.registry ≡ some r
    → HasRegistry (count_request o p).0
      × (active a (count_request o p).0 ≡ active a p + booked a (count_request o p).1)
      × (known_in a p.registry ≡ true → known_in a (count_request o p).0.registry ≡ true)
      × ((count_request o p).1 ≡ ok (some a) → known_in a (count_request o p).0.registry ≡ true)
unfolding count_request
count_request_lem none p r a h = ((r, h), ground arith, ground arith, ground arith)
count_request_lem (some b) p r a h = elim (Result-cases (Registry.increment_active_requests b r)) [
  | inl (r', done) ↦ (
    (r', ground arith),
    ground (arith, increment-active b a r r' done),
    ground (arith, increment-known b a r r' done),
    ground (arith, incremented-known b r r' done),
  )
  | inr (e, failed) ↦ ((r, ground arith), ground arith, ground arith, ground arith)
]

-- What holds behind the choice, holds behind the counting of it.
pub resume_lem :
    (m : Proxy × Result (Option String)) (r : InstanceRegistry) (a : String)
    → m.0.registry ≡ some r
    → HasRegistry (resume m count_request).0
      × (active a (resume m count_request).0 ≡ active a m.0 + booked a (resume m count_request).1)
      × (known_in a m.0.registry ≡ true → known_in a (resume m count_request).0.registry ≡ true)
      × ((resume m count_request).1 ≡ ok (some a)
          → known_in a (resume m count_request).0.registry ≡ true)
resume_lem (p, raise e) r a h = ((r, h), ground arith, ground arith, ground arith)
resume_lem (p, ok o) r a h = count_request_lem o p r a h

module _ (w : World) (is_prompt : Bool) (d : Demand) (p : Proxy) (r : InstanceRegistry)
    (h : p.registry ≡ some r) where
  policy_schedule-asked :
      (policy_schedule w is_prompt d p).0.registry
      ≡ some (Registry.get_available_instances w.clock (role_of is_prompt) d.model r).0
  policy_schedule-asked =
      policy_schedule-registry w is_prompt d p
      ∙ (ap (λ o. (ask_registry w.clock (role_of is_prompt) d.model o).0) h
          ∙ ask_registry-some w.clock (role_of is_prompt) d.model r)

  -- All that `schedule` does to the counts and to the addresses that are known.
  pub schedule_lem :
      (a : String)
      → HasRegistry (schedule w is_prompt d p).0
        × (active a (schedule w is_prompt d p).0
            ≡ active a p + booked a (schedule w is_prompt d p).1)
        × (known_in a p.registry ≡ true → known_in a (schedule w is_prompt d p).0.registry ≡ true)
        × ((schedule w is_prompt d p).1 ≡ ok (some a)
            → known_in a (schedule w is_prompt d p).0.registry ≡ true)
  unfolding schedule
  schedule_lem a =
      let m = policy_schedule w is_prompt d p in
      let (has, counts, stays, chosen) =
        resume_lem m (Registry.get_available_instances w.clock (role_of is_prompt) d.model r).0 a
          policy_schedule-asked in
      let (same, known_same) = ask_registry_lem w.clock (role_of is_prompt) d.model p.registry a in
      let unmoved : active a m.0 ≡ active a p =
        ap (active_in a) (policy_schedule-registry w is_prompt d p) ∙ same in
      let unmoved_known : known_in a m.0.registry ≡ known_in a p.registry =
        ap (known_in a) (policy_schedule-registry w is_prompt d p) ∙ known_same in
      (
        has,
        counts ∙ ap (λ n. n + booked a (schedule w is_prompt d p).1) unmoved,
        (λ k. stays (unmoved_known ∙ k)),
        chosen,
      )

  -- `schedule` adds one to the number of active requests of the instance that it returns, and changes
  -- no other number of active requests; where it returns none or raises, it changes none. This holds
  -- for every policy, of a proxy with a registry.
  pub schedule-active :
      (a : String)
      → active a (schedule w is_prompt d p).0 ≡ active a p + booked a (schedule w is_prompt d p).1
  schedule-active a = (schedule_lem a).1
