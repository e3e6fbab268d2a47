-- ===== src/Proxy/Chosen.antt =====
-- xpyd/proxy.py and xpyd/scheduler: every policy chooses among the instances that the registry
-- answered.
pub mod Available
pub mod Schedule
use micro_pdproxy.Base.{
  ℕ, zero, suc, ◌+◌, ◌-◌, ◌*◌, ◌/◌, ◌%◌, ◌≤◌, ◌<◌, String, ◌≡◌, refl, sym, ap, ◌∙◌, ◌≢◌, ◌↔◌, ◌⊎◌,
  inl, inr, Bool, true, false, not, ◌&&◌, ◌||◌, Option, none, some, List, [], ◌∷◌, ◌++◌, map, arith,
  if◌then◌else◌, ◌==◌, Result, ok, raise, ltb, leb, eqb, length, is_empty, get_elem?, contains,
  Distinct, Option-cases, Result-cases, Bool-cases, if-intro, get_or_else, or_raise, get_or, sorted,
  contains-sorted,
}
use micro_pdproxy.Base.Dict.{Dict}
use micro_pdproxy.Scheduler.RoundRobin as RoundRobin
use micro_pdproxy.Scheduler.ConsistentHash as ConsistentHash
use micro_pdproxy.Scheduler.ConsistentHash.{ConsistentHashPolicy, Context}
use micro_pdproxy.Scheduler.CacheAware as Rings
use micro_pdproxy.Scheduler.CacheAware.Policy as CacheAware
use micro_pdproxy.Scheduler.CacheAware.Policy.{CacheAwarePolicy}
use micro_pdproxy.Scheduler.PowerOfTwo as PowerOfTwo
use micro_pdproxy.Scheduler.PowerOfTwo.{PowerOfTwoPolicy}
use micro_pdproxy.Scheduler.LoadBalanced as LoadBalanced
use micro_pdproxy.Scheduler.LoadBalanced.{Pool, LoadBalancedScheduler}
use micro_pdproxy.Proxy.Policies.{World, Policy, choose}
use micro_pdproxy.Scheduler.Ring.{bisect_right}
use micro_pdproxy.Scheduler.PowerOfTwo.Choice.{Draws, select_from_lem, Picked}
use micro_pdproxy.Scheduler.LoadBalanced.Candidates.{has_index, candidates, candidates_iff}
use micro_pdproxy.Scheduler.LoadBalanced.Least.{LeastBooked}
use micro_pdproxy.Scheduler.LoadBalanced.DecodeLeast.{FewestBooked}

-- Nothing, or one of them.
abbrev pub Allowed : List String → Option String → Type 0
Allowed available none = Unit
Allowed available (some a) = contains available a ≡ true

search_from-Allowed :
    (fuel : ℕ) (available seen cycler cycler' : List String) (a : String)
    → RoundRobin.search_from fuel available seen cycler ≡ some (ok (some a, cycler'))
    → contains available a ≡ true
unfolding RoundRobin.search_from
search_from-Allowed zero available seen cycler cycler' a h = ground arith
search_from-Allowed (suc fuel) available seen [] cycler' a h = ground arith
search_from-Allowed (suc fuel) available seen (x ∷ xs) cycler' a h =
    ground (arith, search_from-Allowed fuel available (x ∷ seen) (xs ++ (x ∷ [])) cycler' a)

pub round_robin-Allowed :
    (available cycler cycler' : List String) (a : String)
    → RoundRobin.schedule (some available) cycler ≡ some (ok (some a, cycler'))
    → contains available a ≡ true
unfolding RoundRobin.schedule
round_robin-Allowed [] cycler cycler' a h = ground arith
round_robin-Allowed (x ∷ xs) cycler cycler' a h =
    search_from-Allowed (length cycler + 1) (x ∷ xs) [] cycler cycler' a h

hash_walk-Allowed :
    (candidates : List String) (p : ConsistentHashPolicy) (start left i : ℕ) (a : String)
    → ConsistentHash.walk candidates p start left i ≡ ok (some a)
    → contains candidates a ≡ true
unfolding ConsistentHash.walk
hash_walk-Allowed candidates p start zero i a h = ground arith
hash_walk-Allowed candidates p start (suc left) i a h =
    elim (Result-cases (ConsistentHash.worker_at p ((start + i) % length p.ring_keys))) [
      | inl (w, found) ↦ ground (arith, hash_walk-Allowed candidates p start left (suc i) a)
      | inr (e, failed) ↦ ground arith
    ]

pub hash_select_from-Allowed :
    (key_hash : String → ℕ) (candidates : List String) (context : Context)
    (p : ConsistentHashPolicy) (a : String)
    → ConsistentHash.select_from key_hash candidates context p ≡ ok (some a)
    → contains candidates a ≡ true
unfolding ConsistentHash.select_from
hash_select_from-Allowed key_hash candidates context p a h =
    let n = length p.ring_keys in
    ground (
      arith,
      hash_walk-Allowed candidates p
          (bisect_right p.ring_keys (key_hash (ConsistentHash.routing_key context)) % n) n 0 a,
    )

cached_walk-Allowed :
    (candidates workers : List String) (start n left i : ℕ) (a : String)
    → Rings.walk candidates workers start n left i ≡ ok (some a)
    → contains candidates a ≡ true
unfolding Rings.walk
cached_walk-Allowed candidates workers start n zero i a h = ground arith
cached_walk-Allowed candidates workers start n (suc left) i a h =
    elim (Option-cases (get_elem? workers ((start + i) % n))) [
      | inl missing ↦ ground arith
      | inr (w, found) ↦
          ground (arith, cached_walk-Allowed candidates workers start n left (suc i) a)
    ]

lookup_from-Allowed :
    (key : ℕ) (candidates : List String) (r : Rings.ConsistentHashRing) (a : String)
    → Rings.lookup_from key candidates r ≡ ok (some a)
    → contains candidates a ≡ true
unfolding Rings.lookup_from
lookup_from-Allowed key candidates r a h =
    let n = length r.ring_keys in
    ground
      (arith, cached_walk-Allowed candidates r.ring_workers (bisect_right r.ring_keys key) n n 0 a)

pub cached_select_from-Allowed :
    (tokenize : String → List String) (hash_of : List String → ℕ) (candidates : List String)
    (prompt : Option String) (p : CacheAwarePolicy) (a : String)
    → CacheAware.policy_select_from tokenize hash_of candidates prompt p ≡ ok (some a)
    → contains candidates a ≡ true
unfolding CacheAware.policy_select_from
cached_select_from-Allowed tokenize hash_of candidates prompt p a h = ground (
  arith,
  lookup_from-Allowed (CacheAware.prefix_hash tokenize hash_of (get_or_else prompt "") p) candidates
      p.ring a,
)

Picked-some :
    (ws : List String) (loads : Dict ℕ) (m : PowerOfTwoPolicy × Option String) (a : String)
    → Picked ws loads m
    → m.1 ≡ some a
    → contains ws a ≡ true
Picked-some ws loads (q, none) a h e = ground arith
Picked-some ws loads (q, some w) a h e = ground arith

pub drawn-Allowed :
    (sample : List String → String × String) (drawn_from : List String) (loads : Option (Dict ℕ))
    (p : PowerOfTwoPolicy) (a : String)
    → Draws sample
    → (PowerOfTwo.select_from sample drawn_from loads p).1 ≡ some a
    → contains drawn_from a ≡ true
drawn-Allowed sample drawn_from loads p a draws h =
    sym (contains-sorted drawn_from a)
    ∙ Picked-some (sorted drawn_from) (get_or_else loads p.load)
        (PowerOfTwo.select_from sample drawn_from loads p) a
        (select_from_lem sample drawn_from loads p draws).0 h

get_elem?-get_or :
    (xs : List String) (i : ℕ) (x d : String) → get_elem? xs i ≡ some x → get_or xs i d ≡ x
get_elem?-get_or [] i x d h = ground arith
get_elem?-get_or (y ∷ xs) zero x d h = ground arith
get_elem?-get_or (y ∷ xs) (suc i) x d h = get_elem?-get_or xs i x d h

pub index-Allowed :
    (available : List String) (need index : ℕ) (p : Pool)
    → has_index (candidates (some available) need p) index ≡ true
    → contains available (get_or p.instances index "") ≡ true
index-Allowed available need index p h =
    let takes_it = sym (candidates_iff (some available) need p index) ∙ h in
    elim (Option-cases (get_elem? p.model_len index)) [
      | inl no_len ↦ ground arith
      | inr (len, l) ↦ elim (Option-cases (get_elem? p.instances index)) [
        | inl missing ↦ ground arith
        | inr (x, found) ↦ ground (arith, get_elem?-get_or p.instances index x "" found)
      ]
    ]

pub LeastBooked-Allowed :
    (available : List String) (n : ℕ) (cs : List ℕ) (p : Pool) (r : Pool × Option String)
    → ((index : ℕ)
        → has_index cs index ≡ true
        → contains available (get_or p.instances index "") ≡ true)
    → LeastBooked n cs p r
    → Allowed available r.1
LeastBooked-Allowed available n [] p (q, none) h l = tt
LeastBooked-Allowed available n [] p (q, some a) h l = ground arith
LeastBooked-Allowed available n (c ∷ cs) p (q, none) h (index, member, least, same, chosen) = tt
LeastBooked-Allowed available n (c ∷ cs) p (q, some a) h (index, member, least, same, chosen) =
    ground (arith, h index member)

pub FewestBooked-Allowed :
    (available : List String) (n : ℕ) (cs : List ℕ) (p : Pool) (r : Pool × Option String)
    → ((index : ℕ)
        → has_index cs index ≡ true
        → contains available (get_or p.instances index "") ≡ true)
    → FewestBooked n cs p r
    → Allowed available r.1
FewestBooked-Allowed available n [] p (q, none) h l = tt
FewestBooked-Allowed available n [] p (q, some a) h l = ground arith
FewestBooked-Allowed available n (c ∷ cs) p (q, none) h (index, member, least, ties, same, chosen) =
    tt
FewestBooked-Allowed available n (c ∷ cs) p (q, some a) h
      (index, member, least, ties, same, chosen) =
    ground (arith, h index member)
