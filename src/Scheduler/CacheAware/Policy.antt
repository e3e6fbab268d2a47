-- ===== src/Scheduler/CacheAware/Policy.antt =====
-- xpyd/scheduler/cache_aware.py: `CacheAwarePolicy`, the ring behind a hash of the prompt's first
-- tokens. `tokenize` gives the texts of a prompt's tokens, by the tokenizer or by `str.split`, and
-- `hash_of` is sha256 of such texts joined by blanks; `hash` is that of the virtual nodes.
use micro_pdproxy.Base.{
  ℕ, zero, suc, String, Bool, Option, none, List, [], ◌∷◌, is_empty, if◌then◌else◌, get_or_else,
  set_of, Result, ok, ◌>>=◌, ◌≡◌, ◌∙◌, refl, Bool-cases, inl, inr,
}
use micro_pdproxy.Registry
use micro_pdproxy.Registry.{InstanceRegistry}
use micro_pdproxy.Scheduler.CacheAware.{
  ConsistentHashRing, empty, add_worker, remove_worker, get, lookup_from,
}
use micro_pdproxy.Scheduler.CacheAware.Points.{IsValid, points}
use micro_pdproxy.Scheduler.CacheAware.Lookup.{Selected, lookup_from_lem}

pub record CacheAwarePolicy : Type 0 where
  pub prefix_length : ℕ
  pub ring : ConsistentHashRing

add_all : (String → ℕ → ℕ) → List String → ConsistentHashRing → ConsistentHashRing
add_all hash [] r = r
add_all hash (w ∷ ws) r = add_all hash ws (add_worker hash w r)

-- VIRTUAL_NODES_PER_WORKER
abbrev virtual_nodes_per_worker : ℕ
virtual_nodes_per_worker = 160

-- __init__
unfoldable pub cache_aware : (String → ℕ → ℕ) → List String → ℕ → CacheAwarePolicy
unfolding add_all
cache_aware hash workers prefix_length = record {
  prefix_length = prefix_length;
  ring = add_all hash workers (empty virtual_nodes_per_worker);
}

-- tokens[:n]
abbrev pub prefix : ℕ → List String → List String
prefix zero ts = []
prefix (suc n) [] = []
prefix (suc n) (t ∷ ts) = t ∷ prefix n ts

-- _prefix_hash
unfoldable pub prefix_hash :
    (String → List String) → (List String → ℕ) → String → CacheAwarePolicy → ℕ
prefix_hash tokenize hash_of prompt p = hash_of (prefix p.prefix_length (tokenize prompt))

unfoldable pub policy_add_worker : (String → ℕ → ℕ) → String → CacheAwarePolicy → CacheAwarePolicy
policy_add_worker hash addr p = record p { ring = add_worker hash addr p.ring }

unfoldable pub policy_remove_worker : String → CacheAwarePolicy → CacheAwarePolicy
policy_remove_worker addr p = record p { ring = remove_worker addr p.ring }

module _ (tokenize : String → List String) (hash_of : List String → ℕ) where
  -- `len(ring)` is the number of its keys.
  unfoldable pub policy_select : Option String → CacheAwarePolicy → Result (Option String)
  unfolding prefix_hash
  policy_select prompt p =
      if is_empty p.ring.ring_keys
      then ok none
      else get (prefix_hash tokenize hash_of (get_or_else prompt "") p) p.ring

  unfoldable pub policy_select_from :
      List String → Option String → CacheAwarePolicy → Result (Option String)
  unfolding prefix_hash
  policy_select_from candidates prompt p =
      if is_empty p.ring.ring_keys
      then ok none
      else if is_empty candidates
      then ok none
      else lookup_from (prefix_hash tokenize hash_of (get_or_else prompt "") p) candidates p.ring

  -- `schedule` with a registry, which comes back, since asking it may move breakers.
  unfoldable pub policy_schedule_with :
      (String → ℕ)
      → Bool
      → String
      → Option String
      → InstanceRegistry
      → CacheAwarePolicy
      → Result (InstanceRegistry × Option String)
  unfolding policy_select_from
  policy_schedule_with clock is_prompt model prompt registry p =
      let (registry', available) =
        Registry.get_available_instances clock (if is_prompt then "prefill" else "decode") model
          registry in
      if is_empty available
      then ok (registry', none)
      else (policy_select_from (set_of available) prompt p >>= λ chosen. ok (registry', chosen))

  -- `schedule` without one.
  unfoldable pub policy_schedule : Option String → CacheAwarePolicy → Result (Option String)
  unfolding policy_select
  policy_schedule prompt p = policy_select prompt p

  -- The policy's guards are those of the ring.
  select_from-lookup_from :
      (candidates : List String) (prompt : Option String) (p : CacheAwarePolicy)
      → policy_select_from candidates prompt p
        ≡ lookup_from (prefix_hash tokenize hash_of (get_or_else prompt "") p) candidates p.ring
  unfolding policy_select_from lookup_from
  select_from-lookup_from candidates prompt p = elim (Bool-cases (is_empty p.ring.ring_keys)) [
    | inl nothing ↦ rw (nothing, policy_select_from, lookup_from) refl
    | inr some_key ↦ elim (Bool-cases (is_empty candidates)) [
      | inl nobody ↦ rw (some_key, policy_select_from, lookup_from, nobody) refl
      | inr somebody ↦ rw (some_key, policy_select_from, lookup_from, somebody) refl
    ]
  ]

  -- Over a valid ring, and for any tokenizer and hash, `select_from` never raises; it returns a
  -- candidate that has a point on the ring, and nothing only if no candidate has one.
  pub policy_select_from_lem :
      (candidates : List String) (prompt : Option String) (p : CacheAwarePolicy)
      → IsValid p.ring
      → (o : Option String) × (policy_select_from candidates prompt p ≡ ok o)
        × Selected candidates (points p.ring) o
  policy_select_from_lem candidates prompt p v =
      let (o, found, good) =
        lookup_from_lem candidates (prefix_hash tokenize hash_of (get_or_else prompt "") p) p.ring
          v in
      (o, select_from-lookup_from candidates prompt p ∙ found, good)
