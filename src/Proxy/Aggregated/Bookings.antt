-- ===== src/Proxy/Aggregated/Bookings.antt =====
-- xpyd/proxy.py: the numbers of active requests of aggregated instances.
use micro_pdproxy.Base.{
  ℕ, ◌+◌, String, ◌≡◌, refl, ap, ◌∙◌, inl, inr, true, Option, some, List, arith, Result, ok, raise,
  is_empty, Result-cases, if-intro,
}
use micro_pdproxy.Base.Action.{resume, resume_keeps}
use micro_pdproxy.Registry
use micro_pdproxy.Registry.{InstanceRegistry}
use micro_pdproxy.Proxy.{Proxy, Demand, Policy}
use micro_pdproxy.Proxy.Policies.{World}
use micro_pdproxy.Proxy.Bookings.{active, booked, HasRegistry, resume_lem, known_in}
use micro_pdproxy.Proxy.Aggregated.{
  schedule_aggregated, select_aggregated, available_aggregated, aggregated_instances_for_model,
  Strategy, advanced, choose_aggregated, from_instances, get_aggregated_policy, strategy_for,
  select_from, least_loaded, in_turn, keep_policy,
}
use micro_pdproxy.Registry.Counts.{aggregated-active, all-active}

module _ (w : World) (d : Demand) (a : String) (n : ℕ) where
  -- There is a registry, and it counts `n` requests of the address.
  abbrev Counts : Proxy → Type 0
  Counts p = HasRegistry p × (active a p ≡ n)

  instances-Counts : (p : Proxy) → Counts p → Counts (aggregated_instances_for_model w d.model p).0
  unfolding aggregated_instances_for_model
  instances-Counts p ((r, h), c) = elim (Result-cases (Registry.get_all_instances w.clock r)) [
    | inl (s, found) ↦ ((s.0, ground arith), ground (arith, all-active w.clock a r s found))
    | inr (e, failed) ↦ ((r, ground arith), ground arith)
  ]

  available-Counts :
      (instances : List String) (p : Proxy)
      → Counts p
      → Counts (available_aggregated w d.model instances p).0
  unfolding available_aggregated
  available-Counts instances p ((r, h), c) = (
    ((Registry.get_aggregated_instances w.clock d.model r).0, ground arith),
    ground (arith, aggregated-active w.clock d.model r a),
  )

  keep_policy-Counts :
      (policy : Policy) (m : Result (Policy × Option String)) (p : Proxy)
      → Counts p
      → Counts (keep_policy d.model policy m p).0
  keep_policy-Counts policy (raise e) p c = c
  keep_policy-Counts policy (ok q) p c = c

  select-Counts :
      (strategy : Strategy) (instances available : List String) (p : Proxy)
      → Counts p
      → Counts (select_aggregated w strategy instances available d p).0
  unfolding select_aggregated
  select-Counts least_loaded instances available p c = c
  select-Counts in_turn instances available p c = c
  select-Counts (advanced s) instances available p c =
      let policy = get_aggregated_policy w d.model s instances p in
      keep_policy-Counts policy (select_from w p.registry available d s policy) p c

  choose-Counts :
      (instances available : List String) (p : Proxy)
      → Counts p
      → Counts (choose_aggregated w d instances available p).0
  choose-Counts instances available p c =
      if-intro (λ (m : Proxy × Result (Option String)). Counts m.0) (is_empty available) c
        (select-Counts (strategy_for d.model p) instances available p c)

  from_instances-Counts :
      (instances : List String) (p : Proxy) → Counts p → Counts (from_instances w d instances p).0
  from_instances-Counts instances p c =
      if-intro (λ (m : Proxy × Result (Option String)). Counts m.0) (is_empty instances) c
        (resume_keeps Counts (available_aggregated w d.model instances p)
          (choose_aggregated w d instances) (available-Counts instances p c)
          (λ available q k. choose-Counts instances available q k))

module _ (w : World) (d : Demand) (p : Proxy) (r : InstanceRegistry) (a : String)
    (h : p.registry ≡ some r) where
  -- What `schedule_aggregated` does to the counts; what it returns is known.
  pub schedule_aggregated_lem :
      HasRegistry (schedule_aggregated w d p).0
      × (active a (schedule_aggregated w d p).0
          ≡ active a p + booked a (schedule_aggregated w d p).1)
      × ((schedule_aggregated w d p).1 ≡ ok (some a)
          → known_in a (schedule_aggregated w d p).0.registry ≡ true)
  unfolding schedule_aggregated
  schedule_aggregated_lem =
      let m = resume (aggregated_instances_for_model w d.model p) (from_instances w d) in
      let ((r', h'), counted) =
        resume_keeps (Counts w d a (active a p)) (aggregated_instances_for_model w d.model p)
          (from_instances w d) (instances-Counts w d a (active a p) p ((r, h), refl))
          (λ instances q k. from_instances-Counts w d a (active a p) instances q k) in
      let (has, counts, stays, chosen) = resume_lem m r' a h' in
      (has, counts ∙ ap (λ n. n + booked a (schedule_aggregated w d p).1) counted, chosen)

  -- `schedule_aggregated` adds one to the number of active requests of the instance that it returns,
  -- and changes no other number; where it returns none or raises, it changes none. This holds for
  -- every strategy, of a proxy with a registry.
  pub schedule_aggregated-active :
      active a (schedule_aggregated w d p).0 ≡ active a p + booked a (schedule_aggregated w d p).1
  schedule_aggregated-active = schedule_aggregated_lem.1
