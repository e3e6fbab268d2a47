-- ===== src/Proxy/Members/Added.antt =====
-- xpyd/proxy.py: what `add_instance` does to the instances that requests are scheduled on.
use mathlib.Core.Path.{subst}
use micro_pdproxy.Base.{
  string_discrete, ℕ, String, ◌≡◌, refl, sym, ap, ◌∙◌, ◌⊎◌, inl, inr, Bool, true, false, not, ◌&&◌,
  Option, some, [], ◌∷◌, ◌++◌, arith, if◌then◌else◌, ◌==◌, Result, ok, raise, contains,
  Option-cases, Result-cases, Bool-cases, ◌>>=◌, Error, List, Distinct, if-intro,
}
use micro_pdproxy.Base.Action.{resume, fail}
use micro_pdproxy.Base.Dict
use micro_pdproxy.Base.Dict.{Dict}
use micro_pdproxy.Registry as Registry
use micro_pdproxy.Registry.{InstanceRegistry, get_active_requests, is_role}
use micro_pdproxy.Scheduler.LoadBalanced.{LoadBalancedScheduler}
use micro_pdproxy.Proxy.Members.{join, enter, settle_join, set_default, add_instance, Stage}
use micro_pdproxy.Proxy.Members.View.{View, view, joined_view}
use micro_pdproxy.Proxy.Members.Restored.{
  Shares, Steady, Joined, joined-Shares, before, join-Joined,
}
use micro_pdproxy.Proxy.{Proxy, with_registry}
use micro_pdproxy.Proxy.Policies.{World, load_balanced}

-- What the caller of `add_instance` finds of the prefill and decode instances. The list of the role has the instance at its end, and the
-- scheduler's arrays have a place for it, or nothing that requests are scheduled by has changed.
abbrev pub Paired : String → String → Proxy → Proxy × Result Bool → Type 0
Paired role address p (q, raise e) = view q ≡ view p
Paired role address p (q, ok false) = view q ≡ view p
Paired role address p (q, ok true) =
    (q.prefill_instances
      ≡ (if role == "prefill" then p.prefill_instances ++ (address ∷ []) else p.prefill_instances))
    × (q.decode_instances
        ≡ (if role == "decode" then p.decode_instances ++ (address ∷ []) else p.decode_instances))
    × Steady (view q)

-- A role that the registry takes is one of the three.
role_added :
    (role address model : String) (r r' : InstanceRegistry)
    (f : InstanceRegistry → Result InstanceRegistry)
    → (Registry.add role address model r >>= f) ≡ ok r'
    → is_role role ≡ true
unfolding Registry.add
role_added role address model r r' f h = ground arith

is_role-cases :
    (role : String)
    → is_role role ≡ true
    → (role ≡ "prefill") ⊎ ((role ≡ "decode") ⊎ (role ≡ "aggregated"))
is_role-cases role valid = ground arith

joined_view-lists :
    (w : World) (role address model : String) (m : ℕ) (v : View)
    → is_role role ≡ true
    → ((joined_view w role address model m v).0
        ≡ (if role == "prefill" then v.0 ++ (address ∷ []) else v.0))
      × ((joined_view w role address model m v).1
          ≡ (if role == "decode" then v.1 ++ (address ∷ []) else v.1))
unfolding string_discrete
joined_view-lists w role address model m v valid = elim (is_role-cases role valid) [
  | inl e ↦ rw e (refl, refl)
  | inr (inl e) ↦ rw e (refl, refl)
  | inr (inr e) ↦ rw e (refl, refl)
]

pub view-with_registry :
    (f : InstanceRegistry → Result InstanceRegistry) (p : Proxy)
    → view (with_registry f p).0 ≡ view p
unfolding with_registry
view-with_registry f p = elim (Option-cases p.registry) [
  | inl missing ↦ rw missing refl
  | inr (r, found) ↦ elim (Result-cases (f r)) [
    | inl (r', done) ↦ rw (with_registry, found, done) refl
    | inr (e, failed) ↦ rw (with_registry, found, failed) refl
  ]
]

fail-Paired :
    (role address : String) (p : Proxy) (e : Error) (out : Proxy × Result {0} Unit)
    → view out.0 ≡ view p
    → Paired role address p (resume out (λ u. fail e))
fail-Paired role address p e (q, ok u) h = h
fail-Paired role address p e (q, raise e') h = h

contains-end :
    (a b : String) (xs : List String)
    → contains xs b ≡ false
    → (b == a) ≡ false
    → contains (xs ++ (a ∷ [])) b ≡ false
contains-end a b [] h k = ground arith
contains-end a b (x ∷ xs) h k = ground (arith, contains-end a b xs)

end-Distinct :
    (a : String) (xs : List String)
    → Distinct xs
    → contains xs a ≡ false
    → Distinct (xs ++ (a ∷ []))
end-Distinct a [] once h = (refl, tt)
end-Distinct a (x ∷ xs) once h =
    (contains-end a x xs once.0 (ground (arith, h)), end-Distinct a xs once.1 (ground (arith, h)))

settle_join-Paired :
    (w : World) (role address model : String) (m : ℕ) (p : Proxy) (s : LoadBalancedScheduler)
    (out : Proxy × Result {0} Unit)
    → p.scheduling_policy ≡ load_balanced s
    → Steady (view p)
    → contains p.prefill_instances address ≡ false
    → contains p.decode_instances address ≡ false
    → is_role role ≡ true
    → Joined w role address model m (view p) out
    → Paired role address p (settle_join address out)
settle_join-Paired w role address model m p s (q, ok u) loads (once, once', shares) hp hd valid h =
    let same : view p ≡ before w role address model p.prefill_instances p.decode_instances s =
      ap (λ x. (p.prefill_instances, p.decode_instances, x)) loads in
    let start : Shares (before w role address model p.prefill_instances p.decode_instances s) =
      subst Shares same shares in
    let prefill = ap (λ v. v.0) h ∙ (joined_view-lists w role address model m (view p) valid).0 in
    let decode = ap (λ v. v.1) h ∙ (joined_view-lists w role address model m (view p) valid).1 in
    (
      prefill,
      decode,
      (
        subst Distinct (sym prefill) (
            if-intro Distinct (role == "prefill") (end-Distinct address p.prefill_instances once hp)
              once),
        subst Distinct (sym decode) (
            if-intro Distinct (role == "decode") (end-Distinct address p.decode_instances once' hd)
              once'),
        subst Shares (sym (h ∙ ap (joined_view w role address model m) same))
            (joined-Shares w role address model p.prefill_instances p.decode_instances s m start),
      ),
    )
settle_join-Paired w role address model m p s (q, raise e) loads (once, once', shares) hp hd valid
      h =
    fail-Paired role address p e (with_registry (Registry.remove address) q)
      (view-with_registry (Registry.remove address) q ∙ h)

pub missing-has :
    (address : String) (now : ℕ) (r : InstanceRegistry) (e : Error)
    → Registry.get_instance_info now address r ≡ raise e
    → Dict.has r.instances address ≡ false
unfolding Registry.get_instance_info Registry.get_instance
missing-has address now r e h = ground (arith, Dict.not-has_of-get r.instances address)

module _ (w : World) (role address : String) (p : Proxy) (s : LoadBalancedScheduler)
    (loads : p.scheduling_policy ≡ load_balanced s) (shares : Steady (view p)) where
  -- `join` may find other aggregated instances and another registry.
  joined-Paired :
      (model : String) (m : ℕ) (fault : Option Stage) (q : Proxy)
      → view q ≡ view p
      → is_role role ≡ true
      → contains p.prefill_instances address ≡ false
      → contains p.decode_instances address ≡ false
      → Paired role address p (settle_join address (join w role address model m fault q))
  joined-Paired model m fault q h valid hp hd =
      let same : view q ≡ before w role address model q.prefill_instances q.decode_instances s =
        ap (λ x. (q.prefill_instances, q.decode_instances, x)) (ap (λ v. v.2) h ∙ loads) in
      settle_join-Paired w role address model m p s (join w role address model m fault q) loads
        shares hp hd valid
        (subst (λ v. Joined w role address model m v (join w role address model m fault q)) h
          (join-Joined w role address model q s (ap (λ v. v.2) h ∙ loads)
            (subst Shares (sym h ∙ same) shares.2) (ap (λ v. contains v.0 address) h ∙ hp)
            (ap (λ v. contains v.1 address) h ∙ hd) m fault))

  view-set_default :
      (model : String) (r : InstanceRegistry)
      → view (record (set_default role model p) { registry = some r }) ≡ view p
  view-set_default model r =
      elim (Bool-cases (role == "aggregated" && not (Dict.has p.aggregated_instances model))) [
        | inl h ↦ rw (set_default, h) refl
        | inr h ↦ rw (set_default, h) refl
      ]

  enter-Paired :
      (model : String) (m : ℕ) (fault : Option Stage) (r : InstanceRegistry)
      → contains p.prefill_instances address ≡ false
      → contains p.decode_instances address ≡ false
      → Paired role address p (enter w role address model m fault r p)
  enter-Paired model m fault r hp hd =
      elim (Result-cases
        (Registry.add role address model r >>= Registry.mark_healthy (w.clock address) address)) [
          | inl (r', done) ↦
              rw (enter, done)
                (joined-Paired model m fault
                  (record (set_default role model p) { registry = some r' })
                  (view-set_default model r')
                  (role_added role address model r r'
                    (Registry.mark_healthy (w.clock address) address) done)
                  hp hd)
          | inr (e, failed) ↦ rw (enter, failed) (view-set_default model r)
        ]

  pub add_instance-Paired :
      (details : Option (String × ℕ)) (fault : Option Stage)
      → ((r : InstanceRegistry)
          → p.registry ≡ some r
          → Dict.has r.instances address ≡ false
          → (contains p.prefill_instances address ≡ false)
            × (contains p.decode_instances address ≡ false))
      → Paired role address p (add_instance w role address details fault p)
  unfolding add_instance
  add_instance-Paired details fault listed = elim (Option-cases p.registry) [
    | inl missing ↦ rw (add_instance, missing) refl
    | inr (r, found) ↦ elim (Option-cases details) [
      | inl invalid ↦ rw (add_instance, found, invalid) refl
      | inr (d, valid) ↦
          elim (Result-cases (Registry.get_instance_info (w.clock address) address r)) [
            | inl (known, present) ↦ rw (add_instance, found, valid, present) refl
            | inr (e, absent) ↦
                let unlisted = listed r found (missing-has address (w.clock address) r e absent) in
                rw (add_instance, found, valid, absent)
                  (enter-Paired d.0 d.1 fault r unlisted.0 unlisted.1)
          ]
    ]
  ]
