-- ===== src/Proxy/Members/View.antt =====
-- xpyd/proxy.py: what the addition of an instance does to the lists of prefill and decode instances
-- and to the policy that schedules on them.
use micro_pdproxy.Base.{
  ℕ, String, ◌≡◌, refl, ap, ◌∙◌, inl, inr, Bool, true, false, ◌&&◌, List, [], ◌∷◌, ◌++◌,
  if◌then◌else◌, ◌==◌, is_empty, Option-cases, Bool-cases, if-elim,
}
use micro_pdproxy.Base.Dict
use micro_pdproxy.Base.Dict.{Dict}
use micro_pdproxy.HealthMonitor as HealthMonitor
use micro_pdproxy.HealthMonitor.{HealthMonitor, remove_first}
use micro_pdproxy.Discovery as Discovery
use micro_pdproxy.Discovery.{NodeDiscovery}
use micro_pdproxy.Proxy.Members.{
  instances_of, put_instances, join_policy, leave_policy, roll_back, forget, share, with_monitor,
  drop_empty, change_aggregated, with_discovery,
}
use micro_pdproxy.Proxy.{Proxy, is_some}
use micro_pdproxy.Proxy.Policies.{
  World, Policy, add_instance_to_policy, remove_instance_from_policy, add_worker, remove_worker,
}

-- What the scheduling of requests on the two roles reads of the proxy.
abbrev pub View : Type 0
View = List String × List String × Policy

abbrev pub view : Proxy → View
view p = (p.prefill_instances, p.decode_instances, p.scheduling_policy)

abbrev pub list_of : String → View → List String
list_of role v = if role == "prefill" then v.0 else v.1

abbrev pub put_view : String → List String → View → View
put_view role xs v =
    if role == "aggregated"
    then v
    else if role == "prefill"
    then (xs, v.1, share true xs v.2)
    else (v.0, xs, share false xs v.2)

abbrev pub policy_view : String → (Policy → Policy) → View → View
policy_view role f v = if role == "aggregated" then v else (v.0, v.1, f v.2)

pub view-monitor :
    (f : HealthMonitor → HealthMonitor) (p : Proxy) → view (with_monitor f p) ≡ view p
view-monitor f p = elim (Option-cases p.health_monitor) [
  | inl h ↦ rw h refl
  | inr found ↦ rw found.1 refl
]

view-aggregated :
    (model : String) (f : Policy → Policy) (p : Proxy) → view (change_aggregated model f p) ≡ view p
view-aggregated model f p = elim (Option-cases (Dict.get p.aggregated_policies model)) [
  | inl h ↦ rw (change_aggregated, h) refl
  | inr found ↦ rw (change_aggregated, found.1) refl
]

pub view-drop_empty : (role model : String) (p : Proxy) → view (drop_empty role model p) ≡ view p
view-drop_empty role model p =
    if-elim (λ q. view q ≡ view p) (role == "aggregated" && is_empty (instances_of role model p))
      (λ yes. refl) (λ no. refl)

view-put_instances :
    (role model : String) (xs : List String) (p : Proxy)
    → view (put_instances role model xs p) ≡ put_view role xs (view p)
view-put_instances role model xs p = elim (Bool-cases (role == "aggregated")) [
  | inl h ↦ rw h refl
  | inr h ↦ elim (Bool-cases (role == "prefill")) [
    | inl h' ↦ rw (h, h') refl
    | inr h' ↦ rw (h, h') refl
  ]
]

abbrev pub track_view : String → Bool → (List String → List String) → View → View
track_view role watched g v = if watched then put_view role (g (list_of role v)) v else v

pub view-discovery :
    (role : String) (f : NodeDiscovery → NodeDiscovery) (g : List String → List String) (p : Proxy)
    → view (with_discovery role f g p) ≡ track_view role (is_some p.discovery) g (view p)
view-discovery role f g p = elim (Option-cases p.discovery) [
  | inl h ↦ rw (with_discovery, h) refl
  | inr (d, found) ↦ elim (Bool-cases (role == "aggregated")) [
    | inl h ↦ rw (with_discovery, found, h) refl
    | inr h ↦ elim (Bool-cases (role == "prefill")) [
      | inl h' ↦ rw (with_discovery, found, h, h') refl
      | inr h' ↦ rw (with_discovery, found, h, h') refl
    ]
  ]
]

pub view-forget :
    (role address : String) (p : Proxy)
    → view (forget role address p)
      ≡ track_view role (is_some p.discovery) (remove_first address) (view p)
view-forget role address p =
    view-monitor (HealthMonitor.remove_node address)
      (with_discovery role (Discovery.remove_instance role address) (remove_first address) p)
    ∙ view-discovery role (Discovery.remove_instance role address) (remove_first address) p

module _ (w : World) (role address model : String) where
  view-join_policy :
      (m : ℕ) (p : Proxy)
      → view (join_policy w role address model m p)
        ≡ policy_view role (add_instance_to_policy w role address m) (view p)
  view-join_policy m p = elim (Bool-cases (role == "aggregated")) [
    | inl h ↦ rw h (view-aggregated model (add_worker w address) p)
    | inr h ↦ rw h refl
  ]

  pub view-leave_policy :
      (index : ℕ) (p : Proxy)
      → view (leave_policy w role address model index p)
        ≡ policy_view role (remove_instance_from_policy w role address index) (view p)
  view-leave_policy index p = elim (Bool-cases (role == "aggregated")) [
    | inl h ↦ rw h (view-aggregated model (remove_worker w address) p)
    | inr h ↦ rw h refl
  ]

  -- The exception clause on the view.
  abbrev pub back_view : Bool → ℕ → Bool → View → View
  back_view watched index policy_added v =
      let v0 = track_view role watched (remove_first address) v in
      let v' = put_view role (remove_first address (list_of role v0)) v0 in
      if policy_added
      then policy_view role (remove_instance_from_policy w role address index) v'
      else v'

  pub put-list_of :
      (f : List String → List String) (p : Proxy)
      → view (put_instances role model (f (instances_of role model p)) p)
        ≡ put_view role (f (list_of role (view p))) (view p)
  put-list_of f p = elim (Bool-cases (role == "aggregated")) [
    | inl h ↦ view-put_instances role model (f (instances_of role model p)) p ∙ rw h refl
    | inr h ↦ view-put_instances role model (f (instances_of role model p)) p ∙ rw h refl
  ]

  pub view-roll_back :
      (index : ℕ) (policy_added : Bool) (p : Proxy)
      → view (roll_back w role address model index policy_added p)
        ≡ back_view (is_some p.discovery) index policy_added (view p)
  unfolding roll_back
  view-roll_back index policy_added p =
      let v0 = track_view role (is_some p.discovery) (remove_first address) (view p) in
      let p1 = forget role address p in
      let p2 = put_instances role model (remove_first address (instances_of role model p1)) p1 in
      let put : view p2 ≡ put_view role (remove_first address (list_of role v0)) v0 =
        put-list_of (remove_first address) p1
        ∙ ap (λ v. put_view role (remove_first address (list_of role v)) v)
            (view-forget role address p) in
      let p3 = if policy_added then leave_policy w role address model index p2 else p2 in
      let left : view p3 ≡ back_view (is_some p.discovery) index policy_added (view p) =
        if-elim (λ q. view q ≡ back_view (is_some p.discovery) index policy_added (view p))
          policy_added
          (λ yes.
            view-leave_policy index p2
            ∙ (ap (policy_view role (remove_instance_from_policy w role address index)) put
                ∙ rw yes refl))
          (λ no. put ∙ rw no refl) in
      view-drop_empty role model p3 ∙ left

  -- What `join` does before the monitor hears of it.
  abbrev pub joined_view : ℕ → View → View
  joined_view m v =
      put_view role (list_of role v ++ (address ∷ []))
        (policy_view role (add_instance_to_policy w role address m) v)

  pub view-joined :
      (m : ℕ) (p : Proxy)
      → view (
          put_instances role model
            (instances_of role model (join_policy w role address model m p) ++ (address ∷ []))
            (join_policy w role address model m p))
        ≡ joined_view m (view p)
  view-joined m p =
      put-list_of (λ xs. xs ++ (address ∷ [])) (join_policy w role address model m p)
      ∙ (ap (λ v. put_view role (list_of role v ++ (address ∷ [])) v) (view-join_policy m p)
          ∙ elim (Bool-cases (role == "aggregated")) [ inl h ↦ rw h refl | inr h ↦ rw h refl ])
