-- ===== src/Proxy/Releases.antt =====
-- xpyd/proxy.py: `exception_handler` and `schedule_completion` give back what `schedule` counted.
use micro_pdproxy.Base.{
  ℕ, ◌-◌, String, ◌≡◌, refl, ap, ◌∙◌, inl, inr, Bool, true, false, not, ◌&&◌, Option, none, some,
  List, [], ◌∷◌, arith, if◌then◌else◌, Result, ok, raise, is_empty, Option-cases, Result-cases,
  if-intro, if-elim, Error,
}
use micro_pdproxy.Base.Action.{Action, resume, resume_keeps, return, ◌>>=◌}
use micro_pdproxy.Registry
use micro_pdproxy.Registry.{InstanceRegistry, get_active_requests}
use micro_pdproxy.Proxy.Policies.{World}
use Prim.Native.String.{String}
use micro_pdproxy.Proxy.{
  with_registry, Proxy, release_counts, record_successes, all_fall_back, info_model,
  uses_round_robin_fallback, named, booked_by_fallback, exception_handler, schedule_completion,
  is_some, policy_completion, on_done, record_failure, record_failures,
}
use micro_pdproxy.Proxy.Bookings.{known_in, active}
use micro_pdproxy.Registry.Counts.{
  one_if, decrement-known, decrement_total, decrement-active, success-active, info-active, known,
  failure-active, success-known, failure-known, info-known,
}

-- The count of an address after the ends of requests on the instances.
abbrev pub released : List String → String → ℕ → ℕ
released [] a n = n
released (b ∷ bs) a n = released bs a (n - one_if b a)

pub released_none :
    (bs : List String) (a : String) (n : ℕ) → is_empty bs ≡ true → released bs a n ≡ n
released_none [] a n h = refl
released_none (b ∷ bs) a n h = ground arith

-- Whether all of them are known.
abbrev pub all_known : List String → Option InstanceRegistry → Bool
all_known [] r = true
all_known (a ∷ others) r = known_in a r && all_known others r

-- What every known address keeps, a list of them keeps.
all_known-map :
    (bs : List String) (o o' : Option InstanceRegistry)
    → ((b : String) → known_in b o ≡ true → known_in b o' ≡ true)
    → all_known bs o ≡ true
    → all_known bs o' ≡ true
all_known-map [] o o' f h = refl
all_known-map (b ∷ bs) o o' f h = ground (arith, f b, all_known-map bs o o' f)

-- What a method of the registry does, in each of its outcomes.
pub with_registry_ok :
    (f : InstanceRegistry → Result InstanceRegistry) (p : Proxy) (r r' : InstanceRegistry)
    → p.registry ≡ some r
    → f r ≡ ok r'
    → with_registry f p ≡ (record p { registry = some r' }, ok tt)
unfolding with_registry
with_registry_ok f p r r' h k = rw (with_registry, h, with_registry, k) refl

pub with_registry_raise :
    (f : InstanceRegistry → Result InstanceRegistry) (p : Proxy) (r : InstanceRegistry) (e : Error)
    → p.registry ≡ some r
    → f r ≡ raise e
    → with_registry f p ≡ (p, raise e)
unfolding with_registry
with_registry_raise f p r e h k = ground arith

pub with_registry-none :
    (f : InstanceRegistry → Result InstanceRegistry) (p : Proxy)
    → p.registry ≡ none
    → with_registry f p ≡ (p, ok tt)
unfolding with_registry
with_registry-none f p h = ground arith

info_model_ok :
    (w : World) (b : String) (p : Proxy) (r : InstanceRegistry)
    (s : InstanceRegistry × Registry.InstanceInfo)
    → p.registry ≡ some r
    → Registry.get_instance_info (w.clock b) b r ≡ ok s
    → info_model w b p ≡ (record p { registry = some s.0 }, ok s.1.model)
unfolding info_model
info_model_ok w b p r s h k = rw (info_model, h, info_model, k) refl

info_model_raise :
    (w : World) (b : String) (p : Proxy) (r : InstanceRegistry) (e : Error)
    → p.registry ≡ some r
    → Registry.get_instance_info (w.clock b) b r ≡ raise e
    → info_model w b p ≡ (p, raise e)
unfolding info_model
info_model_raise w b p r e h k = ground arith

info_model-none :
    (w : World) (b : String) (p : Proxy) → p.registry ≡ none → info_model w b p ≡ (p, ok "")
unfolding info_model
info_model-none w b p h = ground arith

-- The count of an address, and the addresses that are known.
abbrev pub Counted : String → ℕ → List String → Proxy → Type 0
Counted a n ks p = (active a p ≡ n) × (all_known ks p.registry ≡ true)

pub release_counts_lem :
    (bs ks : List String) (p : Proxy) (r : InstanceRegistry) (a : String) (n : ℕ)
    → p.registry ≡ some r
    → all_known bs p.registry ≡ true
    → Counted a n ks p
    → ((release_counts bs p).1 ≡ ok tt) × Counted a (released bs a n) ks (release_counts bs p).0
unfolding with_registry
release_counts_lem [] ks p r a n h k c = (refl, c)
release_counts_lem (b ∷ bs) ks p r a n h k (c, known) =
    let (r', done) = decrement_total b r (ground arith) in
    let q : Proxy = record p { registry = some r' } in
    let keeps : (x : String) → known_in x p.registry ≡ true → known_in x (some r') ≡ true =
      λ x e. ground (arith, decrement-known b x r r' done) in
    let counted : active a q ≡ n - one_if b a = ground (arith, decrement-active b a r r' done) in
    let rest =
      release_counts_lem bs ks q r' a (n - one_if b a) refl
        (all_known-map bs p.registry (some r') keeps (ground arith))
        (counted, all_known-map ks p.registry (some r') keeps known) in
    let stepped = with_registry_ok (Registry.decrement_active_requests b) p r r' h done in
    (ap (λ m. (resume m (λ u. release_counts bs)).1) stepped ∙ rest.0, rw stepped rest.1)

-- The rest of a request's end changes neither counts nor what is known.
module _ (w : World) (a : String) (n : ℕ) (ks : List String) where
  abbrev Holds : Proxy → Type 0
  Holds p = Counted a n ks p

  -- A method of the registry that keeps both.
  pub with_registry-Holds :
      (f : InstanceRegistry → Result InstanceRegistry) (p : Proxy)
      → ((r r' : InstanceRegistry)
          → f r ≡ ok r'
          → (get_active_requests a r' ≡ get_active_requests a r)
            × ((x : String) → known x r ≡ true → known x r' ≡ true))
      → Holds p
      → Holds (with_registry f p).0
  with_registry-Holds f p keeps (c, k) = elim (Option-cases p.registry) [
    | inl missing ↦ rw (with_registry-none f p missing) (c, k)
    | inr (r, there) ↦ elim (Result-cases (f r)) [
      | inl (s, found) ↦
          let (same, stay) = keeps r s found in
          rw (with_registry_ok f p r s there found)
            (ground arith, all_known-map ks p.registry (some s) (λ x e. stay x (ground arith)) k)
      | inr (e, failed) ↦ rw (with_registry_raise f p r e there failed) (c, k)
    ]
  ]

  pub record_success-Holds :
      (b : String) (p : Proxy)
      → Holds p
      → Holds (with_registry (Registry.record_success (w.clock b) b) p).0
  record_success-Holds b p =
      with_registry-Holds (Registry.record_success (w.clock b) b) p (λ r r' e.
        (success-active (w.clock b) b a r r' e, λ x. success-known (w.clock b) b x r r' e))

  pub record_failure-Holds :
      (b : String) (p : Proxy)
      → Holds p
      → Holds (with_registry (Registry.record_failure (w.clock b) (w.clock b) b) p).0
  record_failure-Holds b p =
      with_registry-Holds (Registry.record_failure (w.clock b) (w.clock b) b) p (λ r r' e. (
        failure-active (w.clock b) (w.clock b) b a r r' e,
        λ x. failure-known (w.clock b) (w.clock b) b x r r' e,
      ))

  info_model-Holds : (b : String) (p : Proxy) → Holds p → Holds (info_model w b p).0
  info_model-Holds b p (c, k) = elim (Option-cases p.registry) [
    | inl missing ↦ rw (info_model-none w b p missing) (c, k)
    | inr (r, there) ↦ elim (Result-cases (Registry.get_instance_info (w.clock b) b r)) [
      | inl (s, found) ↦ rw (info_model_ok w b p r s there found) (
        ground (arith, info-active (w.clock b) b a r s found),
        all_known-map ks p.registry (some s.0)
            (λ x e. info-known (w.clock b) b x r s found (ground arith)) k,
      )
      | inr (e, failed) ↦ rw (info_model_raise w b p r e there failed) (c, k)
    ]
  ]

  record_successes-Holds :
      (bs : List String) (p : Proxy) → Holds p → Holds (record_successes w bs p).0
  record_successes-Holds [] p h = h
  record_successes-Holds (b ∷ bs) p h =
      resume_keeps Holds (with_registry (Registry.record_success (w.clock b) b) p)
        (λ u. record_successes w bs) (record_success-Holds b p h)
        (λ u q k. record_successes-Holds bs q k)

  all_fall_back-Holds : (bs : List String) (p : Proxy) → Holds p → Holds (all_fall_back w bs p).0
  all_fall_back-Holds [] p h = h
  all_fall_back-Holds (b ∷ bs) p h =
      resume_keeps Holds (info_model w b p)
        (λ model q.
          (if uses_round_robin_fallback model q then all_fall_back w bs else return false) q)
        (info_model-Holds b p h)
        (λ model q k.
          if-intro (λ (m : Action Proxy Bool). Holds (m q).0) (uses_round_robin_fallback model q)
            (all_fall_back-Holds bs q k) k)

  booked_by_fallback-Holds :
      (bs : List String) (p : Proxy) → Holds p → Holds (booked_by_fallback w bs p).0
  booked_by_fallback-Holds bs p h =
      if-intro (λ (m : Proxy × Result Bool). Holds m.0) (is_some p.registry && not (is_empty bs))
        (all_fall_back-Holds bs p h) h

  -- What follows the counts in `schedule_completion`.
  rest-Holds :
      (prefill decode : Option String) (req_len : ℕ) (p : Proxy)
      → Holds p
      → Holds
          (resume (booked_by_fallback w (named prefill decode) p) (λ fallback.
            if fallback then return tt else policy_completion prefill decode req_len)).0
  rest-Holds prefill decode req_len p h =
      resume_keeps Holds (booked_by_fallback w (named prefill decode) p)
        (λ fallback. if fallback then return tt else policy_completion prefill decode req_len)
        (booked_by_fallback-Holds (named prefill decode) p h)
        (λ fallback q k. if-intro (λ (m : Action Proxy Unit). Holds (m q).0) fallback k k)

-- The end of a request on known instances, for any policy, whether its bookkeeping raises or not.
module _ (w : World) (prefill decode : Option String) (req_len : ℕ) (p : Proxy)
    (r : InstanceRegistry) (a : String) (n : ℕ) (ks : List String) (h : p.registry ≡ some r)
    (k : all_known (named prefill decode) p.registry ≡ true) (c : Counted a n ks p) where
  schedule_completion-Counted :
      Counted a
        (released (named prefill decode) a n)
        ks
        (schedule_completion w prefill decode req_len p).0
  unfolding schedule_completion
  schedule_completion-Counted =
      resume_keeps (Holds w a (released (named prefill decode) a n) ks)
        (release_counts (named prefill decode) p)
        (λ u. booked_by_fallback w (named prefill decode) >>= λ fallback.
          if fallback then return tt else policy_completion prefill decode req_len)
        (release_counts_lem (named prefill decode) ks p r a n h k c).1
        (λ u q d.
          rest-Holds w a (released (named prefill decode) a n) ks prefill decode req_len q d)

  pub exception_handler-Counted :
      Counted a
        (released (named prefill decode) a n)
        ks
        (exception_handler w prefill decode req_len p).0
  unfolding exception_handler
  exception_handler-Counted =
      if-elim (λ (m : Proxy × Result Unit). Counted a (released (named prefill decode) a n) ks m.0)
        (is_empty (named prefill decode))
        (λ nothing. rw (released_none (named prefill decode) a n nothing) c)
        (λ some_named.
          resume_keeps (Holds w a (released (named prefill decode) a n) ks)
            (on_done w prefill decode req_len p) (λ u. record_successes w (named prefill decode))
            schedule_completion-Counted
            (λ u q d.
              record_successes-Holds w a (released (named prefill decode) a n) ks
                (named prefill decode) q d))

-- Recording failures changes neither.
pub record_failure-Counted :
    (w : World) (prefill decode : Option String) (p : Proxy) (a : String) (n : ℕ) (ks : List String)
    → Counted a n ks p
    → Counted a n ks (record_failure w prefill decode p).0
unfolding record_failure
record_failure-Counted w prefill decode p a n ks = go (named prefill decode) p
  where
    go :
        (bs : List String) (q : Proxy)
        → Counted a n ks q
        → Counted a n ks (record_failures w bs q).0
    go [] q c = c
    go (b ∷ bs) q c =
        resume_keeps (Counted a n ks)
          (with_registry (Registry.record_failure (w.clock b) (w.clock b) b) q)
          (λ u. record_failures w bs) (record_failure-Holds w a n ks b q c) (λ u t k. go bs t k)
