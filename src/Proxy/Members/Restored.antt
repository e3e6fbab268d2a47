-- ===== src/Proxy/Members/Restored.antt =====
-- xpyd/proxy.py: an instance joins the proxy, and an exception on the way leaves what was there.
use micro_pdproxy.Base.{
  ℕ, ◌+◌, String, ◌≡◌, refl, sym, ap, ◌∙◌, inl, inr, true, false, Option, none, some, List, [], ◌∷◌,
  ◌++◌, arith, ◌==◌, Result, ok, raise, length, contains, Bool-cases, remove_at, Bool, Distinct,
}
use micro_pdproxy.Scheduler.LoadBalanced.{LoadBalancedScheduler, Pool}
use micro_pdproxy.HealthMonitor as HealthMonitor
use micro_pdproxy.HealthMonitor.{HealthMonitor, remove_first}
use micro_pdproxy.Discovery as Discovery
use micro_pdproxy.Discovery.{NodeDiscovery}
use micro_pdproxy.Proxy.Members.{
  instances_of, put_instances, join_policy, roll_back, join, Stage, at_policy, at_monitor,
  at_discovery, with_monitor,
}
use micro_pdproxy.Scheduler.LoadBalanced.Candidates.{IsValid}
use micro_pdproxy.Proxy.Members.View.{
  View, view, list_of, back_view, joined_view, view-monitor, view-discovery, view-roll_back,
  view-joined, track_view,
}
use micro_pdproxy.Scheduler.LoadBalanced.{extend, shrink, add_instance_state, remove_instance_state}
use micro_pdproxy.Proxy.{Proxy, is_some}
use micro_pdproxy.Proxy.Policies.{World, load_balanced}
use micro_pdproxy.Base.Int.{pos}

pub remove_first-end :
    (a : String) (xs : List String) → contains xs a ≡ false → remove_first a (xs ++ (a ∷ [])) ≡ xs
remove_first-end a [] h = ground arith
remove_first-end a (x ∷ xs) h = ground (arith, remove_first-end a xs)

pub remove_first-absent :
    (a : String) (xs : List String) → contains xs a ≡ false → remove_first a xs ≡ xs
remove_first-absent a [] h = refl
remove_first-absent a (x ∷ xs) h = ground (arith, remove_first-absent a xs)

contains-end : (a : String) (xs : List String) → contains (xs ++ (a ∷ [])) a ≡ true
contains-end a [] = ground arith
contains-end a (x ∷ xs) = ground (arith, contains-end a xs)

remove_at-end {ℓ} : {A : Type ℓ} (xs : List A) (v : A) → remove_at (xs ++ (v ∷ [])) (length xs) ≡ xs
remove_at-end [] v = refl
remove_at-end (x ∷ xs) v = ap (λ ys. x ∷ ys) (remove_at-end xs v)

length-end {ℓ} : {A : Type ℓ} (xs : List A) (v : A) → length (xs ++ (v ∷ [])) ≡ length xs + 1
length-end [] v = refl
length-end (x ∷ xs) v = ground (arith, length-end xs v)

-- The scheduler's lists are the proxy's, and its arrays match them.
abbrev pub Shares : View → Type 0
Shares (ps, ds, load_balanced s) =
    IsValid s.prefill × IsValid s.decode × (s.prefill.instances ≡ ps) × (s.decode.instances ≡ ds)
Shares (ps, ds, policy) = Unit

-- No instance is listed twice, and the scheduler's lists and arrays are in step.
abbrev pub Steady : View → Type 0
Steady v = Distinct v.0 × Distinct v.1 × Shares v

abbrev pub hold : List String → Pool → Pool
hold xs p = record p { instances = xs }

-- A place at the end of the arrays, for a new instance, and its removal.
remove_at-length {ℓ} :
    {A : Type ℓ} (xs : List A) (n : ℕ) (v : A) → length xs ≡ n → remove_at (xs ++ (v ∷ [])) n ≡ xs
remove_at-length xs n v h = rw (sym h) (remove_at-end xs v)

shrink-extend :
    (m : ℕ) (a : String) (xs : List String) (p : Pool)
    → IsValid p
    → p.instances ≡ xs
    → shrink (length xs) (hold xs (hold (xs ++ (a ∷ [])) (extend m p))) ≡ p
unfolding shrink extend
shrink-extend m a xs p v h =
    rw
      (
        remove_at-length p.utils (length xs) (pos 0) (v.utils_length ∙ ap length h),
        remove_at-length p.bs (length xs) 0 (v.bs_length ∙ ap length h),
        remove_at-length p.model_len (length xs) m (v.model_length ∙ ap length h),
        sym h,
      )
      refl

extend-IsValid :
    (m : ℕ) (a : String) (xs : List String) (p : Pool)
    → IsValid p
    → p.instances ≡ xs
    → IsValid (hold (xs ++ (a ∷ [])) (extend m p))
unfolding extend
extend-IsValid m a xs p v h =
    let utils : length (p.utils ++ (pos 0 ∷ [])) ≡ length (xs ++ (a ∷ [])) =
      length-end p.utils (pos 0)
      ∙ (ap (λ n. n + 1) (v.utils_length ∙ ap length h) ∙ sym (length-end xs a)) in
    let bs : length (p.bs ++ (0 ∷ [])) ≡ length (xs ++ (a ∷ [])) =
      length-end p.bs 0 ∙ (ap (λ n. n + 1) (v.bs_length ∙ ap length h) ∙ sym (length-end xs a)) in
    let model_len : length (p.model_len ++ (m ∷ [])) ≡ length (xs ++ (a ∷ [])) =
      length-end p.model_len m
      ∙ (ap (λ n. n + 1) (v.model_length ∙ ap length h) ∙ sym (length-end xs a)) in
    record { utils_length = utils; bs_length = bs; model_length = model_len }

module _ (w : World) (role address model : String) (ps ds : List String)
    (s : LoadBalancedScheduler) where
  abbrev pub before : View
  before = (ps, ds, load_balanced s)

  pub joined-Shares : (m : ℕ) → Shares before → Shares (joined_view w role address model m before)
  unfolding add_instance_state
  joined-Shares m (v, v', e, e') = elim (Bool-cases (role == "aggregated")) [
    | inl h ↦ rw h (v, v', e, e')
    | inr h ↦ elim (Bool-cases (role == "prefill")) [
      | inl h' ↦ rw (h, h') (extend-IsValid m address ps s.prefill v e, v', refl, e')
      | inr h' ↦ rw (h, h') (v, extend-IsValid m address ds s.decode v' e', e, refl)
    ]
  ]

  restored :
      (watched : Bool) (m : ℕ)
      → Shares before
      → contains ps address ≡ false
      → contains ds address ≡ false
      → back_view w role address model watched
          (length (list_of role before))
          true
          (joined_view w role address model m before)
        ≡ before
  unfolding add_instance_state remove_instance_state
  restored false m (v, v', e, e') hp hd = elim (Bool-cases (role == "aggregated")) [
    | inl h ↦ rw h refl
    | inr h ↦ elim (Bool-cases (role == "prefill")) [
      | inl h' ↦
          rw (h, h', remove_first-end address ps hp, remove_instance_state, h')
            (ap (λ q. (ps, ds, load_balanced (record s { prefill = q })))
              (shrink-extend m address ps s.prefill v e))
      | inr h' ↦
          rw (h, h', remove_first-end address ds hd, remove_instance_state, h')
            (ap (λ q. (ps, ds, load_balanced (record s { decode = q })))
              (shrink-extend m address ds s.decode v' e'))
    ]
  ]
  restored true m (v, v', e, e') hp hd = elim (Bool-cases (role == "aggregated")) [
    | inl h ↦ rw h refl
    | inr h ↦ elim (Bool-cases (role == "prefill")) [
      | inl h' ↦
          rw
            (
              h,
              h',
              remove_first-end address ps hp,
              remove_first-absent address ps hp,
              remove_instance_state,
              h',
            )
            (ap (λ q. (ps, ds, load_balanced (record s { prefill = q })))
              (shrink-extend m address ps s.prefill v e))
      | inr h' ↦
          rw
            (
              h,
              h',
              remove_first-end address ds hd,
              remove_first-absent address ds hd,
              remove_instance_state,
              h',
            )
            (ap (λ q. (ps, ds, load_balanced (record s { decode = q })))
              (shrink-extend m address ds s.decode v' e'))
    ]
  ]

  -- Where the policy was not told, only the list is looked at.
  untold :
      (watched : Bool) (index : ℕ)
      → Shares before
      → contains ps address ≡ false
      → contains ds address ≡ false
      → back_view w role address model watched index false before ≡ before
  untold false index (v, v', e, e') hp hd = elim (Bool-cases (role == "aggregated")) [
    | inl h ↦ rw h refl
    | inr h ↦ elim (Bool-cases (role == "prefill")) [
      | inl h' ↦
          rw (h, h', remove_first-absent address ps hp)
            (ap (λ xs. (ps, ds, load_balanced (record s { prefill = hold xs s.prefill }))) (sym e))
      | inr h' ↦
          rw (h, h', remove_first-absent address ds hd)
            (ap (λ xs. (ps, ds, load_balanced (record s { decode = hold xs s.decode }))) (sym e'))
    ]
  ]
  untold true index (v, v', e, e') hp hd = elim (Bool-cases (role == "aggregated")) [
    | inl h ↦ rw h refl
    | inr h ↦ elim (Bool-cases (role == "prefill")) [
      | inl h' ↦
          rw (h, h', remove_first-absent address ps hp, remove_first-absent address ps hp)
            (ap (λ xs. (ps, ds, load_balanced (record s { prefill = hold xs s.prefill }))) (sym e))
      | inr h' ↦
          rw (h, h', remove_first-absent address ds hd, remove_first-absent address ds hd)
            (ap (λ xs. (ps, ds, load_balanced (record s { decode = hold xs s.decode }))) (sym e'))
    ]
  ]

append_new-end :
    (a : String) (xs : List String) → Discovery.append_new a (xs ++ (a ∷ [])) ≡ xs ++ (a ∷ [])
append_new-end a xs = rw (contains-end a xs) refl

module _ (w : World) (role address model : String) (ps ds : List String)
    (s : LoadBalancedScheduler) where
  -- The discovery does not list the instance again.
  tracked :
      (watched : Bool) (m : ℕ)
      → track_view role watched
          (Discovery.append_new address)
          (joined_view w role address model m (ps, ds, load_balanced s))
        ≡ joined_view w role address model m (ps, ds, load_balanced s)
  unfolding add_instance_state
  tracked false m = refl
  tracked true m = elim (Bool-cases (role == "aggregated")) [
    | inl h ↦ rw h refl
    | inr h ↦ elim (Bool-cases (role == "prefill")) [
      | inl h' ↦ rw (h, h', append_new-end address ps) refl
      | inr h' ↦ rw (h, h', append_new-end address ds) refl
    ]
  ]

-- What `join` returns.
abbrev pub Joined : World → String → String → String → ℕ → View → Proxy × Result {0} Unit → Type 0
Joined w role address model m v (q, raise e) = view q ≡ v
Joined w role address model m v (q, ok u) = view q ≡ joined_view w role address model m v

module _ (w : World) (role address model : String) (p : Proxy) (s : LoadBalancedScheduler)
    (loads : p.scheduling_policy ≡ load_balanced s)
    (shares : Shares (before w role address model p.prefill_instances p.decode_instances s))
    (hp : contains p.prefill_instances address ≡ false)
    (hd : contains p.decode_instances address ≡ false) where
  abbrev start : View
  start = before w role address model p.prefill_instances p.decode_instances s

  pub view-start : view p ≡ start
  view-start = ap (λ x. (p.prefill_instances, p.decode_instances, x)) loads

  back_view-index :
      (watched : Bool) (v : View)
      → back_view w role address model watched (length (instances_of role model p)) true v
        ≡ back_view w role address model watched (length (list_of role start)) true v
  back_view-index watched v = elim (Bool-cases (role == "aggregated")) [
    | inl h ↦ rw h refl
    | inr h ↦ rw h refl
  ]

  rolled_back :
      (m : ℕ) (q : Proxy)
      → view q ≡ joined_view w role address model m (view p)
      → view (roll_back w role address model (length (instances_of role model p)) true q) ≡ view p
  rolled_back m q h =
      view-roll_back w role address model (length (instances_of role model p)) true q
      ∙ (back_view-index (is_some q.discovery) (view q)
          ∙ (ap
                (back_view w role address model (is_some q.discovery) (length (list_of role start))
                  true)
                (h ∙ ap (joined_view w role address model m) view-start)
              ∙ (restored w role address model p.prefill_instances p.decode_instances s
                    (is_some q.discovery) m shares hp hd
                  ∙ sym view-start)))

  abbrev entered : ℕ → Proxy
  entered m =
      put_instances role model
        (instances_of role model (join_policy w role address model m p) ++ (address ∷ []))
        (join_policy w role address model m p)

  view-entered :
      (m : ℕ)
      → view (with_monitor (HealthMonitor.add_node address) (entered m))
        ≡ joined_view w role address model m (view p)
  view-entered m =
      view-monitor (HealthMonitor.add_node address) (entered m)
      ∙ view-joined w role address model m p

  pub join-Joined :
      (m : ℕ) (fault : Option Stage)
      → Joined w role address model m (view p) (join w role address model m fault p)
  unfolding join
  join-Joined m none =
      let q = with_monitor (HealthMonitor.add_node address) (entered m) in
      let watched = is_some q.discovery in
      let same = ap (joined_view w role address model m) view-start in
      view-discovery role (Discovery.add_instance role address) (Discovery.append_new address) q
      ∙ (ap (track_view role watched (Discovery.append_new address)) (view-entered m ∙ same)
          ∙ (tracked w role address model p.prefill_instances p.decode_instances s watched m
              ∙ sym same))
  join-Joined m (some at_policy) =
      view-roll_back w role address model (length (instances_of role model p)) false p
      ∙ (ap
            (back_view w role address model (is_some p.discovery)
              (length (instances_of role model p)) false)
            view-start
          ∙ (untold w role address model p.prefill_instances p.decode_instances s
                (is_some p.discovery) (length (instances_of role model p)) shares hp hd
              ∙ sym view-start))
  join-Joined m (some at_monitor) = rolled_back m (entered m) (view-joined w role address model m p)
  join-Joined m (some at_discovery) =
      rolled_back m (with_monitor (HealthMonitor.add_node address) (entered m)) (view-entered m)
