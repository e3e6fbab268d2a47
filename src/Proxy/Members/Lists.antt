-- ===== src/Proxy/Members/Lists.antt =====
-- xpyd/proxy.py: what the addition of an instance does to the lists of aggregated instances.
use micro_pdproxy.Proxy.Members.Restored.{remove_first-end, remove_first-absent}
use micro_pdproxy.Base.{
  if◌then◌else◌, is_empty, ◌&&◌, not, get_or_else, ℕ, String, ◌≡◌, refl, sym, ap, ◌∙◌, inl, inr,
  true, false, Option, none, some, List, [], ◌∷◌, ◌++◌, arith, ◌==◌, Result, ok, raise, length,
  contains, Bool-cases, Bool, if-elim, Option-cases, Distinct, get_or_else, ◌&&◌, is_empty, not,
}
use mathlib.Core.Path.{subst}
use micro_pdproxy.Base.Dict
use micro_pdproxy.Base.Dict.{Dict}
use micro_pdproxy.HealthMonitor as HealthMonitor
use micro_pdproxy.HealthMonitor.{HealthMonitor, remove_first}
use micro_pdproxy.Discovery as Discovery
use micro_pdproxy.Discovery.{NodeDiscovery}
use micro_pdproxy.Proxy.Members.{
  instances_of, put_instances, join_policy, roll_back, join, Stage, at_policy, at_monitor,
  at_discovery, with_monitor, set_default, forget, leave_policy, with_discovery, drop_empty,
  remove_worker, change_aggregated, add_worker,
}
use micro_pdproxy.Proxy.{Proxy, Dict, Policy}
use micro_pdproxy.Proxy.Policies.{World}

-- The aggregated instances of a model; a model that is not there has none.
abbrev pub listed_for : String → Dict (List String) → List String
listed_for m d = get_or_else (Dict.get d m) []

abbrev pub lists : Proxy → Dict (List String)
lists p = p.aggregated_instances

lists-monitor : (f : HealthMonitor → HealthMonitor) (p : Proxy) → lists (with_monitor f p) ≡ lists p
lists-monitor f p = elim (Option-cases p.health_monitor) [
  | inl h ↦ rw h refl
  | inr found ↦ rw found.1 refl
]

lists-discovery :
    (role : String) (f : NodeDiscovery → NodeDiscovery) (g : List String → List String) (p : Proxy)
    → lists (with_discovery role f g p) ≡ lists p
lists-discovery role f g p = elim (Option-cases p.discovery) [
  | inl h ↦ rw (with_discovery, h) refl
  | inr (d, found) ↦ elim (Bool-cases (role == "aggregated")) [
    | inl h ↦ rw (with_discovery, found, h) refl
    | inr h ↦ elim (Bool-cases (role == "prefill")) [
      | inl h' ↦ rw (with_discovery, found, h, h') refl
      | inr h' ↦ rw (with_discovery, found, h, h') refl
    ]
  ]
]

lists-forget : (role address : String) (p : Proxy) → lists (forget role address p) ≡ lists p
lists-forget role address p =
    lists-monitor (HealthMonitor.remove_node address)
      (with_discovery role (Discovery.remove_instance role address) (remove_first address) p)
    ∙ lists-discovery role (Discovery.remove_instance role address) (remove_first address) p

lists-aggregated :
    (model : String) (f : Policy → Policy) (p : Proxy)
    → lists (change_aggregated model f p) ≡ lists p
lists-aggregated model f p = elim (Option-cases (Dict.get p.aggregated_policies model)) [
  | inl h ↦ rw (change_aggregated, h) refl
  | inr found ↦ rw (change_aggregated, found.1) refl
]

module _ (w : World) (role address model : String) where
  lists-join_policy : (n : ℕ) (p : Proxy) → lists (join_policy w role address model n p) ≡ lists p
  lists-join_policy n p =
      if-elim (λ q. lists q ≡ lists p) (role == "aggregated")
        (λ yes. lists-aggregated model (add_worker w address) p) (λ no. refl)

  lists-leave_policy :
      (index : ℕ) (p : Proxy) → lists (leave_policy w role address model index p) ≡ lists p
  lists-leave_policy index p =
      if-elim (λ q. lists q ≡ lists p) (role == "aggregated")
        (λ yes. lists-aggregated model (remove_worker w address) p) (λ no. refl)

  -- A change of the list of the role, and what any model's list is afterwards.
  abbrev changed : (List String → List String) → Dict (List String) → String → List String
  changed g d m =
      if role == "aggregated" && model == m then g (listed_for model d) else listed_for m d

  listed-put :
      (g : List String → List String) (p : Proxy) (m : String)
      → listed_for m (lists (put_instances role model (g (instances_of role model p)) p))
        ≡ changed g (lists p) m
  listed-put g p m = elim (Bool-cases (role == "aggregated")) [
    | inl h ↦ rw h (
        ground
          (arith, Dict.get-set p.aggregated_instances model m (g (listed_for model (lists p)))))
    | inr h ↦ elim (Bool-cases (role == "prefill")) [
      | inl h' ↦ rw (h, h') refl
      | inr h' ↦ rw (h, h') refl
    ]
  ]

  put-Distinct :
      (xs : List String) (p : Proxy)
      → Distinct (Dict.keys (lists p))
      → Distinct (Dict.keys (lists (put_instances role model xs p)))
  put-Distinct xs p once = elim (Bool-cases (role == "aggregated")) [
    | inl h ↦ rw h (Dict.set-Distinct p.aggregated_instances model xs once)
    | inr h ↦ elim (Bool-cases (role == "prefill")) [
      | inl h' ↦ rw (h, h') once
      | inr h' ↦ rw (h, h') once
    ]
  ]

  listed-drop_empty :
      (p : Proxy) (m : String)
      → Distinct (Dict.keys (lists p))
      → listed_for m (lists (drop_empty role model p)) ≡ listed_for m (lists p)
  listed-drop_empty p m once =
      if-elim (λ q. listed_for m (lists q) ≡ listed_for m (lists p))
        (role == "aggregated" && is_empty (instances_of role model p))
        (λ yes. ground (arith, yes, Dict.get-delete p.aggregated_instances model m once))
        (λ no. refl)

  pub listed-set_default :
      (p : Proxy) (m : String)
      → listed_for m (lists (set_default role model p)) ≡ listed_for m (lists p)
  listed-set_default p m =
      if-elim (λ q. listed_for m (lists q) ≡ listed_for m (lists p))
        (role == "aggregated" && not (Dict.has p.aggregated_instances model))
        (λ yes. ground (
          arith,
          yes,
          Dict.get-set p.aggregated_instances model m [],
          Dict.get_of-not-has p.aggregated_instances model,
        ))
        (λ no. refl)

  pub set_default-Distinct :
      (p : Proxy)
      → Distinct (Dict.keys (lists p))
      → Distinct (Dict.keys (lists (set_default role model p)))
  set_default-Distinct p once =
      if-elim (λ q. Distinct (Dict.keys (lists q)))
        (role == "aggregated" && not (Dict.has p.aggregated_instances model))
        (λ yes. Dict.set-Distinct p.aggregated_instances model [] once) (λ no. once)

  listed-roll_back :
      (index : ℕ) (policy_added : Bool) (p : Proxy) (m : String)
      → Distinct (Dict.keys (lists p))
      → listed_for m (lists (roll_back w role address model index policy_added p))
        ≡ changed (remove_first address) (lists p) m
  unfolding roll_back
  listed-roll_back index policy_added p m once =
      let p1 = forget role address p in
      let p2 = put_instances role model (remove_first address (instances_of role model p1)) p1 in
      let p3 = if policy_added then leave_policy w role address model index p2 else p2 in
      let same : lists p1 ≡ lists p = lists-forget role address p in
      let policy : lists p3 ≡ lists p2 =
        if-elim (λ q. lists q ≡ lists p2) policy_added (λ yes. lists-leave_policy index p2)
          (λ no. refl) in
      let once2 : Distinct (Dict.keys (lists p2)) =
        put-Distinct (remove_first address (instances_of role model p1)) p1
          (subst (λ d. Distinct (Dict.keys d)) (sym same) once) in
      listed-drop_empty p3 m (subst (λ d. Distinct (Dict.keys d)) (sym policy) once2)
      ∙ (ap (listed_for m) policy
          ∙ (listed-put (remove_first address) p1 m
              ∙ ap (λ d. changed (remove_first address) d m) same))

  -- What `join` does to the lists of aggregated instances.
  abbrev pub Grown : Proxy → Proxy × Result {0} Unit → Type 0
  Grown p (q, ok u) =
      (m : String) → listed_for m (lists q) ≡ changed (λ xs. xs ++ (address ∷ [])) (lists p) m
  Grown p (q, raise e) = (m : String) → listed_for m (lists q) ≡ listed_for m (lists p)

  module _ (p : Proxy) (once : Distinct (Dict.keys (lists p)))
      (new : contains (listed_for model (lists p)) address ≡ false) where
    taken_back :
        (d : Dict (List String)) (m : String)
        → listed_for model d ≡ changed (λ xs. xs ++ (address ∷ [])) (lists p) model
        → listed_for m d ≡ changed (λ xs. xs ++ (address ∷ [])) (lists p) m
        → changed (remove_first address) d m ≡ listed_for m (lists p)
    taken_back d m here there =
        ground (arith, here, there, remove_first-end address (listed_for model (lists p)) new)

    grown :
        (n : ℕ) (q : Proxy) (m : String)
        → lists q
          ≡ lists (
              put_instances role model
                (instances_of role model (join_policy w role address model n p) ++ (address ∷ []))
                (join_policy w role address model n p))
        → (listed_for m (lists q) ≡ changed (λ xs. xs ++ (address ∷ [])) (lists p) m)
          × Distinct (Dict.keys (lists q))
    grown n q m same =
        let p1 = join_policy w role address model n p in
        (
          ap (listed_for m) same
              ∙ (listed-put (λ xs. xs ++ (address ∷ [])) p1 m
                  ∙ ap (λ d. changed (λ xs. xs ++ (address ∷ [])) d m) (lists-join_policy n p)),
          subst (λ d. Distinct (Dict.keys d)) (sym same)
              (put-Distinct (instances_of role model p1 ++ (address ∷ [])) p1
                (subst (λ d. Distinct (Dict.keys d)) (sym (lists-join_policy n p)) once)),
        )

    undone :
        (n index : ℕ) (q : Proxy)
        → lists q
          ≡ lists (
              put_instances role model
                (instances_of role model (join_policy w role address model n p) ++ (address ∷ []))
                (join_policy w role address model n p))
        → (m : String)
        → listed_for m (lists (roll_back w role address model index true q))
          ≡ listed_for m (lists p)
    undone n index q same m =
        listed-roll_back index true q m (grown n q m same).1
        ∙ taken_back (lists q) m (grown n q model same).0 (grown n q m same).0

    pub join-Grown : (n : ℕ) (fault : Option Stage) → Grown p (join w role address model n fault p)
    unfolding join
    join-Grown n none = λ m.
        let p2 =
          put_instances role model
            (instances_of role model (join_policy w role address model n p) ++ (address ∷ []))
            (join_policy w role address model n p) in
        let p3 = with_monitor (HealthMonitor.add_node address) p2 in
        (grown n
          (with_discovery role (Discovery.add_instance role address) (Discovery.append_new address)
            p3)
          m
          (lists-discovery role (Discovery.add_instance role address) (Discovery.append_new address)
              p3
            ∙ lists-monitor (HealthMonitor.add_node address) p2)).0
    join-Grown n (some at_policy) = λ m.
        listed-roll_back (length (instances_of role model p)) false p m once
        ∙ ground (arith, remove_first-absent address (listed_for model (lists p)) new)
    join-Grown n (some at_monitor) = λ m.
        let p2 =
          put_instances role model
            (instances_of role model (join_policy w role address model n p) ++ (address ∷ []))
            (join_policy w role address model n p) in
        undone n (length (instances_of role model p)) p2 refl m
    join-Grown n (some at_discovery) = λ m.
        let p2 =
          put_instances role model
            (instances_of role model (join_policy w role address model n p) ++ (address ∷ []))
            (join_policy w role address model n p) in
        undone n (length (instances_of role model p))
          (with_monitor (HealthMonitor.add_node address) p2)
          (lists-monitor (HealthMonitor.add_node address) p2) m
