-- ===== src/Proxy/Members/Drained.antt =====
-- xpyd/proxy.py: an instance leaves the proxy.
use micro_pdproxy.Proxy.Members.Places.{
  shrink-IsValid, put_same, contains-remove_first, remove_first-gone, remove_first-Distinct,
}
use mathlib.Core.Path.{subst}
use micro_pdproxy.Base.{
  if◌then◌else◌, ◌⊎◌, ℕ, String, ◌≡◌, refl, sym, ap, ◌∙◌, inl, inr, Bool, true, false, List, arith,
  ◌==◌, Result, ok, raise, Bool-cases, Distinct, contains,
}
use micro_pdproxy.Registry as Registry
use micro_pdproxy.Registry.{InstanceRegistry, get_active_requests, is_role}
use micro_pdproxy.HealthMonitor.{remove_first}
use micro_pdproxy.Proxy.Members.{
  instances_of, put_instances, leave_policy, leave, forget, share, drop_empty,
}
use micro_pdproxy.Proxy.Members.View.{View, view, list_of, put_view, policy_view, track_view}
use micro_pdproxy.Scheduler.LoadBalanced.{remove_instance_state}
use micro_pdproxy.Proxy.Members.Restored.{Steady, remove_first-absent, Shares}
use micro_pdproxy.Scheduler.LoadBalanced.{remove_instance_state}
use micro_pdproxy.Proxy.Members.{
  leave_at, index_of, leave_policy, drop_empty, forget, put_instances,
}
use micro_pdproxy.Proxy.Members.View.{view-leave_policy, put-list_of, view-drop_empty, view-forget}
use micro_pdproxy.Proxy.Members.Added.{view-with_registry}
use micro_pdproxy.Proxy.{Proxy, is_some}
use micro_pdproxy.Proxy.Policies.{
  World, Policy, load_balanced, round_robin, consistent_hash, power_of_two, cache_aware,
  remove_instance_from_policy,
}

module _ (w : World) (role address model : String) where
  abbrev left_view : ℕ → View → View
  left_view index v =
      let v' = policy_view role (remove_instance_from_policy w role address index) v in
      put_view role (remove_first address (list_of role v')) v'

  -- Of a policy that shares no list.
  unshared :
      (index : ℕ) (ps ds : List String) (policy : Policy)
      → Shares (ps, ds, policy)
      → ((b : Bool) (zs xs ys : List String)
          → Shares (xs, ys, share b zs (remove_instance_from_policy w role address index policy)))
      → Shares (left_view index (ps, ds, policy))
  unshared index ps ds policy u f = elim (Bool-cases (role == "aggregated")) [
    | inl h ↦ rw h u
    | inr h ↦ elim (Bool-cases (role == "prefill")) [
      | inl h' ↦ rw (h, h') (f true (remove_first address ps) (remove_first address ps) ds)
      | inr h' ↦ rw (h, h') (f false (remove_first address ds) ps (remove_first address ds))
    ]
  ]

  left-Shares :
      (index : ℕ) (v : View)
      → index_of role address (list_of role v) ≡ ok index
      → Shares v
      → Shares (left_view index v)
  unfolding remove_instance_state
  left-Shares index (ps, ds, load_balanced s) found (v, v', e, e') =
      elim (Bool-cases (role == "aggregated")) [
        | inl h ↦ rw h (v, v', e, e')
        | inr h ↦ elim (Bool-cases (role == "prefill")) [
          | inl h' ↦
              rw (h, h')
                (
                  shrink-IsValid index address ps s.prefill v e (ground (arith, found, h, h')),
                  v',
                  refl,
                  e',
                )
          | inr h' ↦
              rw (h, h')
                (
                  v,
                  shrink-IsValid index address ds s.decode v' e' (ground (arith, found, h, h')),
                  e,
                  refl,
                )
        ]
      ]
  left-Shares index (ps, ds, round_robin) found u =
      unshared index ps ds round_robin tt (λ b zs xs ys.
        elim b
          as (λ b.
            Shares
              (xs, ys, share b zs (remove_instance_from_policy w role address index round_robin))) [
                | true ↦ tt
                | false ↦ tt
              ])
  left-Shares index (ps, ds, consistent_hash q) found u =
      unshared index ps ds (consistent_hash q) tt (λ b zs xs ys.
        elim b
          as (λ b. Shares (
            xs,
            ys,
            share b zs (remove_instance_from_policy w role address index (consistent_hash q)),
          )) [ true ↦ tt | false ↦ tt ])
  left-Shares index (ps, ds, power_of_two q) found u =
      unshared index ps ds (power_of_two q) tt (λ b zs xs ys.
        elim b
          as (λ b. Shares (
            xs,
            ys,
            share b zs (remove_instance_from_policy w role address index (power_of_two q)),
          )) [ true ↦ tt | false ↦ tt ])
  left-Shares index (ps, ds, cache_aware q) found u =
      unshared index ps ds (cache_aware q) tt (λ b zs xs ys.
        elim b
          as (λ b. Shares (
            xs,
            ys,
            share b zs (remove_instance_from_policy w role address index (cache_aware q)),
          )) [ true ↦ tt | false ↦ tt ])

  -- What the discovery removes is not there any more.
  gone :
      (index : ℕ) (v : View)
      → (role == "aggregated") ≡ false
      → Distinct v.0
      → Distinct v.1
      → contains (list_of role (left_view index v)) address ≡ false
  gone index v h once once' = elim (Bool-cases (role == "prefill")) [
    | inl h' ↦ rw (h, h') (remove_first-gone address v.0 once)
    | inr h' ↦ rw (h, h') (remove_first-gone address v.1 once')
  ]

  gone-Shares :
      (watched : Bool) (index : ℕ) (v : View)
      → Distinct v.0
      → Distinct v.1
      → Shares (left_view index v)
      → Shares (track_view role watched (remove_first address) (left_view index v))
  gone-Shares false index v once once' s = s
  gone-Shares true index v once once' s = elim (Bool-cases (role == "aggregated")) [
    | inl h ↦ subst Shares (rw h refl) s
    | inr h ↦
        subst (λ xs. Shares (put_view role xs (left_view index v)))
          (sym (
            remove_first-absent address (list_of role (left_view index v))
              (gone index v h once once')))
          (put_same role (left_view index v) s)
  ]

  left-Distinct :
      (index : ℕ) (v : View)
      → Distinct v.0
      → Distinct v.1
      → Distinct (left_view index v).0 × Distinct (left_view index v).1
  left-Distinct index v once once' = elim (Bool-cases (role == "aggregated")) [
    | inl h ↦ rw h (once, once')
    | inr h ↦ elim (Bool-cases (role == "prefill")) [
      | inl h' ↦ rw (h, h') (remove_first-Distinct address v.0 once, once')
      | inr h' ↦ rw (h, h') (once, remove_first-Distinct address v.1 once')
    ]
  ]

  track-Distinct :
      (watched : Bool) (v : View)
      → Distinct v.0 × Distinct v.1
      → Distinct (track_view role watched (remove_first address) v).0
        × Distinct (track_view role watched (remove_first address) v).1
  track-Distinct false v h = h
  track-Distinct true v (once, once') = elim (Bool-cases (role == "aggregated")) [
    | inl h ↦ rw h (once, once')
    | inr h ↦ elim (Bool-cases (role == "prefill")) [
      | inl h' ↦ rw (h, h') (remove_first-Distinct address v.0 once, once')
      | inr h' ↦ rw (h, h') (once, remove_first-Distinct address v.1 once')
    ]
  ]

  view-leave_at :
      (p : Proxy) (index : ℕ)
      → (watched : Bool) × (view (leave_at w role address model p (ok index)).0
          ≡ track_view role watched (remove_first address) (left_view index (view p)))
  view-leave_at p index =
      let p1 = leave_policy w role address model index p in
      let p2 = put_instances role model (remove_first address (instances_of role model p1)) p1 in
      let p3 = drop_empty role model p2 in
      let same : view p2 ≡ left_view index (view p) =
        put-list_of w role address model (remove_first address) p1
        ∙ ap (λ v. put_view role (remove_first address (list_of role v)) v)
            (view-leave_policy w role address model index p) in
      (
        is_some p3.discovery,
        view-with_registry (Registry.remove address) (forget role address p3)
            ∙ (view-forget role address p3
                ∙ ap (track_view role (is_some p3.discovery) (remove_first address))
                    (view-drop_empty role model p2 ∙ same)),
      )

  leave_at-Steady :
      (p : Proxy) (found : Result ℕ)
      → index_of role address (instances_of role model p) ≡ found
      → Steady (view p)
      → Steady (view (leave_at w role address model p found).0)
  leave_at-Steady p (raise e) present h = h
  leave_at-Steady p (ok index) present (once, once', h) =
      let (watched, all) = view-leave_at p index in
      let listed : index_of role address (list_of role (view p)) ≡ ok index =
        elim (Bool-cases (role == "aggregated")) [
          | inl h ↦ rw h (rw⁻¹ present (rw h refl))
          | inr h ↦ ground (arith, present, h)
        ] in
      let distinct =
        track-Distinct watched (left_view index (view p))
          (left-Distinct index (view p) once once') in
      subst Steady (sym all) (
        distinct.0,
        distinct.1,
        gone-Shares watched index (view p) once once' (left-Shares index (view p) listed h),
      )

  pub leave-Steady : (p : Proxy) → Steady (view p) → Steady (view (leave w role address model p).0)
  unfolding leave
  leave-Steady p h = leave_at-Steady p (index_of role address (instances_of role model p)) refl h

  -- The list of a prefill or decode instance does not have it any more, or something was raised.
  abbrev pub Removed : Proxy × Result {0} Unit → Type 0
  Removed (q, raise e) = Unit
  Removed (q, ok u) =
      ((role == "aggregated") ≡ true)
      ⊎ (contains (if role == "prefill" then q.prefill_instances else q.decode_instances) address
          ≡ false)

  -- The list does not have the instance, or it is aggregated.
  abbrev Absent : View → Type 0
  Absent v = ((role == "aggregated") ≡ true) ⊎ (contains (list_of role v) address ≡ false)

  track-Absent :
      (watched : Bool) (v : View)
      → Absent v
      → Absent (track_view role watched (remove_first address) v)
  track-Absent false v h = h
  track-Absent true v (inl h) = inl h
  track-Absent true v (inr h) = elim (Bool-cases (role == "aggregated")) [
    | inl g ↦ inl g
    | inr g ↦ elim (Bool-cases (role == "prefill")) [
      | inl g' ↦
          inr (rw (g, g') (contains-remove_first address address v.0 (ground (arith, h, g'))))
      | inr g' ↦
          inr (rw (g, g') (contains-remove_first address address v.1 (ground (arith, h, g'))))
    ]
  ]

  left-Absent : (index : ℕ) (v : View) → Distinct v.0 → Distinct v.1 → Absent (left_view index v)
  left-Absent index v once once' = elim (Bool-cases (role == "aggregated")) [
    | inl h ↦ inl h
    | inr h ↦ inr (gone index v h once once')
  ]

  settled-Removed : (out : Proxy × Result {0} Unit) → Absent (view out.0) → Removed out
  settled-Removed (q, raise e) h = tt
  settled-Removed (q, ok u) h = h

  leave_at-Removed :
      (p : Proxy) (found : Result ℕ)
      → Steady (view p)
      → Removed (leave_at w role address model p found)
  leave_at-Removed p (raise e) h = tt
  leave_at-Removed p (ok index) (once, once', h) =
      let (watched, same) = view-leave_at p index in
      settled-Removed (leave_at w role address model p (ok index)) (
        subst Absent (sym same)
          (track-Absent watched (left_view index (view p)) (left-Absent index (view p) once once')))

  pub leave-Removed : (p : Proxy) → Steady (view p) → Removed (leave w role address model p)
  unfolding leave
  leave-Removed p h = leave_at-Removed p (index_of role address (instances_of role model p)) h
