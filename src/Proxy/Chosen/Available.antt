-- ===== src/Proxy/Chosen/Available.antt =====
-- xpyd/proxy.py: `schedule` returns only what is available.
use micro_pdproxy.Base.{
  ◌>>=◌, ℕ, ◌+◌, String, ◌≡◌, sym, ◌∙◌, inl, inr, Bool, true, false, Option, none, some, List, [],
  ◌∷◌, arith, Result, ok, raise, contains, Option-cases, Result-cases, contains-set_of, set_of,
}
use micro_pdproxy.Registry.{InstanceRegistry}
use micro_pdproxy.Scheduler.LoadBalanced as LoadBalanced
use micro_pdproxy.Scheduler.LoadBalanced.{Pool, LoadBalancedScheduler}
use micro_pdproxy.Scheduler.LoadBalanced.Candidates.{IsValid, candidates}
use micro_pdproxy.Scheduler.LoadBalanced.Least.{schedule_prefill_lem}
use micro_pdproxy.Scheduler.LoadBalanced.DecodeLeast.{schedule_decode_lem}
use micro_pdproxy.Scheduler.RoundRobin as RoundRobin
use micro_pdproxy.Scheduler.ConsistentHash.{ConsistentHashPolicy, Context}
use micro_pdproxy.Scheduler.CacheAware.Policy as CacheAware
use micro_pdproxy.Scheduler.PowerOfTwo as PowerOfTwo
use micro_pdproxy.Proxy.Policies.{
  World, Policy, choose, load_balanced, round_robin, consistent_hash, power_of_two, cache_aware,
  choose_hash, choose_cached,
}
use micro_pdproxy.Proxy.Chosen.{
  Allowed, LeastBooked-Allowed, index-Allowed, FewestBooked-Allowed, Draws, round_robin-Allowed,
  hash_select_from-Allowed, drawn-Allowed, cached_select_from-Allowed,
}

-- The arrays of the least-loaded scheduler match its instances.
abbrev pub IsSound : Policy → Type 0
IsSound (load_balanced s) = IsValid s.prefill × IsValid s.decode
IsSound round_robin = Unit
IsSound (consistent_hash p) = Unit
IsSound (power_of_two p) = Unit
IsSound (cache_aware p) = Unit

Allowed-some :
    (available : List String) (a : String) (o : Option String)
    → o ≡ some a
    → Allowed available o
    → contains available a ≡ true
Allowed-some available a none e h = ground arith
Allowed-some available a (some b) e h = ground arith

load_balanced-Allowed :
    (available : List String) (is_prompt : Bool) (n m : ℕ) (s s' : LoadBalancedScheduler)
    (a : String)
    → IsValid s.prefill
    → IsValid s.decode
    → LoadBalanced.schedule (some available) is_prompt n m s ≡ ok (s', some a)
    → contains available a ≡ true
unfolding LoadBalanced.schedule
load_balanced-Allowed available true n m s s' a v v' h =
    let (r, result, least) = schedule_prefill_lem (some available) n m s.prefill v in
    let allowed : Allowed available r.1 =
      LeastBooked-Allowed available n (candidates (some available) (n + m) s.prefill) s.prefill r
        (λ index member. index-Allowed available (n + m) index s.prefill member) least in
    Allowed-some available a r.1 (ground (arith, result)) allowed
load_balanced-Allowed available false n m s s' a v v' h =
    let (r, result, fewest) = schedule_decode_lem (some available) n m s.decode v' in
    let allowed : Allowed available r.1 =
      FewestBooked-Allowed available n (candidates (some available) (n + m) s.decode) s.decode r
        (λ index member. index-Allowed available (n + m) index s.decode member) fewest in
    Allowed-some available a r.1 (ground (arith, result)) allowed

choose_hash-Allowed :
    (w : World) (context : Context) (p : ConsistentHashPolicy) (available : List String)
    (a : String)
    → choose_hash w context (some available) p ≡ ok (some a)
    → contains available a ≡ true
choose_hash-Allowed w context p [] a h = ground arith
choose_hash-Allowed w context p (x ∷ xs) a h =
    sym (contains-set_of (x ∷ xs) a)
    ∙ hash_select_from-Allowed w.key_hash (set_of (x ∷ xs)) context p a h

choose_cached-Allowed :
    (w : World) (prompt : Option String) (p : CacheAware.CacheAwarePolicy) (available : List String)
    (a : String)
    → choose_cached w prompt (some available) p ≡ ok (some a)
    → contains available a ≡ true
choose_cached-Allowed w prompt p [] a h = ground arith
choose_cached-Allowed w prompt p (x ∷ xs) a h =
    sym (contains-set_of (x ∷ xs) a)
    ∙ cached_select_from-Allowed w.tokenize w.hash_of (set_of (x ∷ xs)) prompt p a h

-- What is chosen, if a policy that has no cycler chooses.
chosen_of :
    (policy : Policy) (cycler : List String) (m : Result (Option String))
    (q : Policy × List String × Option String) (a : String)
    → (m >>= λ chosen. ok (policy, cycler, chosen)) ≡ ok q
    → q.2 ≡ some a
    → m ≡ ok (some a)
chosen_of policy cycler (raise e) q a h k = ground arith
chosen_of policy cycler (ok o) q a h k = ground arith

module _ (w : World) (r : InstanceRegistry) (available : List String) (draws : Draws w.sample) where
  -- Whatever the policy, what it chooses is among what the registry answered.
  pub choose-Allowed :
      (is_prompt : Bool) (n m : ℕ) (context : Context) (prompt : Option String)
      (cycler : List String) (policy : Policy) (a : String)
      (q : Policy × List String × Option String)
      → IsSound policy
      → choose w (some r) (some available) is_prompt n m context prompt cycler policy ≡ ok q
      → q.2 ≡ some a
      → contains available a ≡ true
  choose-Allowed is_prompt n m context prompt cycler (load_balanced s) a q v h e =
      elim (Result-cases (LoadBalanced.schedule (some available) is_prompt n m s)) [
        | inl (t, done) ↦
            load_balanced-Allowed available is_prompt n m s t.0 a v.0 v.1 (ground arith)
        | inr (x, failed) ↦ ground arith
      ]
  choose-Allowed is_prompt n m context prompt cycler round_robin a q v h e =
      elim (Option-cases (RoundRobin.schedule (some available) cycler)) [
        | inl out ↦ ground arith
        | inr (raise x, done) ↦ ground arith
        | inr (ok t, done) ↦ round_robin-Allowed available cycler t.1 a (ground arith)
      ]
  choose-Allowed is_prompt n m context prompt cycler (consistent_hash p) a q v h e =
      choose_hash-Allowed w context p available a
        (chosen_of (consistent_hash p) cycler (choose_hash w context (some available) p) q a h e)
  choose-Allowed is_prompt n m context prompt cycler (power_of_two p) a q v h e =
      sym (contains-set_of available a)
      ∙ drawn-Allowed w.sample (set_of available) (some (PowerOfTwo.active_loads r available)) p a
          draws (ground arith)
  choose-Allowed is_prompt n m context prompt cycler (cache_aware p) a q v h e =
      choose_cached-Allowed w prompt p available a
        (chosen_of (cache_aware p) cycler (choose_cached w prompt (some available) p) q a h e)
