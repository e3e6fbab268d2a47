-- ===== src/Scheduler/CacheAware.antt =====
-- xpyd/scheduler/cache_aware.py: `ConsistentHashRing`, two parallel lists, and the policy over it.
-- The hash of a virtual node (sha256 of f"{addr}#{i}") is an argument, as is the hash of a prompt's
-- prefix, which goes through the tokenizer.
pub mod Points
pub mod Changes
pub mod Lookup
pub mod Policy
use micro_pdproxy.Base.{
  ℕ, zero, suc, ◌+◌, ◌-◌, ◌%◌, ◌≡◌, String, Bool, true, false, Option, none, some, List, [], ◌∷◌,
  length, is_empty, get_elem?, insert_at, eqb, ◌==◌, contains, if◌then◌else◌, Result, ok, raise,
  index_error, or_raise, ◌>>=◌,
}
use micro_pdproxy.Scheduler.Ring.{bisect_left, bisect_right}

pub record ConsistentHashRing : Type 0 where
  pub vnodes : ℕ
  pub ring_keys : List ℕ
  pub ring_workers : List String
  pub workers : List String

-- ConsistentHashRing.__init__
unfoldable pub empty : ℕ → ConsistentHashRing
empty vnodes = record { vnodes = vnodes; ring_keys = []; ring_workers = []; workers = [] }

-- One round of the loop of `add_worker`.
unfoldable pub add_vnode : ℕ → String → ConsistentHashRing → ConsistentHashRing
add_vnode h addr r =
    let idx = bisect_left r.ring_keys h in
    record r {
      ring_keys = insert_at idx h r.ring_keys;
      ring_workers = insert_at idx addr r.ring_workers;
    }

-- The loop: `left` rounds are to come, from number `i` on.
unfoldable pub add_vnodes :
    (String → ℕ → ℕ) → String → ℕ → ℕ → ConsistentHashRing → ConsistentHashRing
add_vnodes hash addr zero i r = r
add_vnodes hash addr (suc left) i r =
    add_vnodes hash addr left (suc i) (add_vnode (hash addr i) addr r)

unfoldable pub add_worker : (String → ℕ → ℕ) → String → ConsistentHashRing → ConsistentHashRing
add_worker hash addr r =
    if contains r.workers addr
    then r
    else add_vnodes hash addr r.vnodes 0 (record r { workers = addr ∷ r.workers })

-- The loop of `remove_worker` over `zip(ring_keys, ring_workers)`.
unfoldable pub rebuild : String → List ℕ → List String → List ℕ × List String
rebuild addr [] ws = ([], [])
rebuild addr (k ∷ ks) [] = ([], [])
rebuild addr (k ∷ ks) (w ∷ ws) =
    let (new_keys, new_workers) = rebuild addr ks ws in
    if w == addr then (new_keys, new_workers) else (k ∷ new_keys, w ∷ new_workers)

-- set.discard
abbrev pub discard : String → List String → List String
discard a [] = []
discard a (x ∷ xs) = if x == a then discard a xs else x ∷ discard a xs

unfoldable pub remove_worker : String → ConsistentHashRing → ConsistentHashRing
remove_worker addr r =
    if contains r.workers addr
    then (let (new_keys, new_workers) = rebuild addr r.ring_keys r.ring_workers in
        record r {
          ring_keys = new_keys;
          ring_workers = new_workers;
          workers = discard addr r.workers;
        })
    else r

unfoldable pub get : ℕ → ConsistentHashRing → Result (Option String)
get key r =
    if is_empty r.ring_keys
    then ok none
    else (let idx = bisect_right r.ring_keys key in
        let at = if eqb idx (length r.ring_keys) then 0 else idx in
        or_raise index_error (get_elem? r.ring_workers at) >>= λ w. ok (some w))

-- The loop of `lookup_from`: `left` rounds are to come, from number `i` on.
unfoldable pub walk : List String → List String → ℕ → ℕ → ℕ → ℕ → Result (Option String)
walk candidates ring_workers start n zero i = ok none
walk candidates ring_workers start n (suc left) i =
    let rest = walk candidates ring_workers start n left (suc i) in
    or_raise index_error (get_elem? ring_workers ((start + i) % n)) >>= λ w.
    if contains candidates w then ok (some w) else rest

unfoldable pub lookup_from : ℕ → List String → ConsistentHashRing → Result (Option String)
lookup_from key candidates r =
    if is_empty r.ring_keys
    then ok none
    else if is_empty candidates
    then ok none
    else (let n = length r.ring_keys in
        walk candidates r.ring_workers (bisect_right r.ring_keys key) n n 0)
