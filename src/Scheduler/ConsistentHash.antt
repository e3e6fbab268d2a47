-- ===== src/Scheduler/ConsistentHash.antt =====
-- xpyd/scheduler/consistent_hash.py: `ConsistentHashPolicy`. sha256 is two arguments: `vnode_hash`
-- of f"{addr}#{i}" and `key_hash` of a routing key. `_ring_map` is an association list.
pub mod Keys
pub mod Ring
use micro_pdproxy.Base.{
  ℕ, zero, suc, ◌+◌, ◌%◌, String, Bool, true, false, Option, none, some, List, [], ◌∷◌, length,
  is_empty, get_elem?, insert_at, remove_at, eqb, ◌==◌, contains, if◌then◌else◌, get_or_else,
  set_of, Result, ok, raise, index_error, key_error, or_raise, ◌>>=◌,
}
use micro_pdproxy.Scheduler.Ring.{Point, bisect_left, bisect_right}
use micro_pdproxy.Registry
use micro_pdproxy.Registry.{InstanceRegistry}

pub record ConsistentHashPolicy : Type 0 where
  pub virtual_nodes : ℕ
  pub ring_keys : List ℕ
  pub ring_map : List Point
  pub workers : List String

-- ring_map.get(h)
unfoldable pub get_at : List Point → ℕ → Option String
get_at [] h = none
get_at ((p, w) ∷ ps) h = if eqb p h then some w else get_at ps h

-- h in ring_map
unfoldable pub has_at : List Point → ℕ → Bool
has_at [] h = false
has_at ((p, w) ∷ ps) h = if eqb p h then true else has_at ps h

-- del ring_map[h]
unfoldable pub delete_at : ℕ → List Point → List Point
delete_at h [] = []
delete_at h ((p, w) ∷ ps) = if eqb p h then ps else (p, w) ∷ delete_at h ps

-- bisect.insort(keys, h)
unfoldable pub insort : ℕ → List ℕ → List ℕ
insort h ks = insert_at (bisect_right ks h) h ks

-- The removal of a key at the place where `bisect_left` finds it.
unfoldable pub drop_key : ℕ → List ℕ → List ℕ
drop_key h ks =
    let idx = bisect_left ks h in
    elim (get_elem? ks idx) [ none ↦ ks | some k ↦ if eqb k h then remove_at ks idx else ks ]

-- A round of the loop of `_add_worker_unlocked`: on a collision the virtual node is skipped.
unfoldable pub add_vnode : ℕ → String → ConsistentHashPolicy → ConsistentHashPolicy
add_vnode h addr r =
    if has_at r.ring_map h
    then r
    else record r { ring_map = (h, addr) ∷ r.ring_map; ring_keys = insort h r.ring_keys }

-- The loop: `left` rounds are to come, from number `i` on.
unfoldable pub add_vnodes :
    (String → ℕ → ℕ) → String → ℕ → ℕ → ConsistentHashPolicy → ConsistentHashPolicy
add_vnodes vnode_hash addr zero i r = r
add_vnodes vnode_hash addr (suc left) i r =
    add_vnodes vnode_hash addr left (suc i) (add_vnode (vnode_hash addr i) addr r)

unfoldable pub add_worker : (String → ℕ → ℕ) → String → ConsistentHashPolicy → ConsistentHashPolicy
add_worker vnode_hash addr r =
    if contains r.workers addr
    then r
    else add_vnodes vnode_hash addr r.virtual_nodes 0 (record r { workers = addr ∷ r.workers })

add_all : (String → ℕ → ℕ) → List String → ConsistentHashPolicy → ConsistentHashPolicy
add_all vnode_hash [] r = r
add_all vnode_hash (w ∷ ws) r = add_all vnode_hash ws (add_worker vnode_hash w r)

abbrev pub empty : ℕ → ConsistentHashPolicy
empty virtual_nodes = record {
  virtual_nodes = virtual_nodes;
  ring_keys = [];
  ring_map = [];
  workers = [];
}

-- __init__
unfoldable pub init : (String → ℕ → ℕ) → List String → ℕ → ConsistentHashPolicy
unfolding add_all
init vnode_hash workers virtual_nodes = add_all vnode_hash workers (empty virtual_nodes)

abbrev is_owner : Option String → String → Bool
is_owner none addr = false
is_owner (some w) addr = w == addr

-- A round of the loop of `_remove_worker_unlocked`.
unfoldable pub remove_vnode : ℕ → String → ConsistentHashPolicy → ConsistentHashPolicy
remove_vnode h addr r =
    if is_owner (get_at r.ring_map h) addr
    then record r { ring_map = delete_at h r.ring_map; ring_keys = drop_key h r.ring_keys }
    else r

unfoldable pub remove_vnodes :
    (String → ℕ → ℕ) → String → ℕ → ℕ → ConsistentHashPolicy → ConsistentHashPolicy
remove_vnodes vnode_hash addr zero i r = r
remove_vnodes vnode_hash addr (suc left) i r =
    remove_vnodes vnode_hash addr left (suc i) (remove_vnode (vnode_hash addr i) addr r)

-- set.discard
abbrev pub discard : String → List String → List String
discard a [] = []
discard a (x ∷ xs) = if x == a then discard a xs else x ∷ discard a xs

unfoldable pub remove_worker :
    (String → ℕ → ℕ) → String → ConsistentHashPolicy → ConsistentHashPolicy
remove_worker vnode_hash addr r =
    if contains r.workers addr
    then remove_vnodes vnode_hash addr r.virtual_nodes 0
        (record r { workers = discard addr r.workers })
    else r

-- The keyword arguments of `select`, `select_from` and `schedule`.
pub record Context : Type 0 where
  pub header : Option String
  pub session_id : Option String
  pub user : Option String
  pub client_ip : Option String

-- `a or b`: Python skips `None` and the empty text.
abbrev pub or_else : Option String → Option String → Option String
or_else none b = b
or_else (some a) b = if a == "" then b else some a

-- `header or user or client_ip or session_id`, and the default where that is `None`.
unfoldable pub routing_key : Context → String
routing_key c =
    get_or_else (or_else (or_else (or_else c.header c.user) c.client_ip) c.session_id) "__default__"

-- _ring_map[_ring_keys[idx]]
unfoldable pub worker_at : ConsistentHashPolicy → ℕ → Result String
worker_at r idx = or_raise index_error (get_elem? r.ring_keys idx) >>= λ h.
    or_raise key_error (get_at r.ring_map h)

unfoldable pub select : (String → ℕ) → Context → ConsistentHashPolicy → Result (Option String)
unfolding worker_at
select key_hash context r =
    if is_empty r.ring_keys
    then ok none
    else (worker_at r
          (bisect_right r.ring_keys (key_hash (routing_key context)) % length r.ring_keys)
        >>= λ w. ok (some w))

-- The loop of `select_from`: `left` rounds are to come, from number `i` on.
unfoldable pub walk : List String → ConsistentHashPolicy → ℕ → ℕ → ℕ → Result (Option String)
unfolding worker_at
walk candidates r start zero i = ok none
walk candidates r start (suc left) i =
    let rest = walk candidates r start left (suc i) in
    worker_at r ((start + i) % length r.ring_keys) >>= λ w.
    if contains candidates w then ok (some w) else rest

unfoldable pub select_from :
    (String → ℕ) → List String → Context → ConsistentHashPolicy → Result (Option String)
unfolding walk
select_from key_hash candidates context r =
    if is_empty r.ring_keys
    then ok none
    else if is_empty candidates
    then ok none
    else (let n = length r.ring_keys in
        walk candidates r (bisect_right r.ring_keys (key_hash (routing_key context)) % n) n 0)

-- `schedule` with a registry, which comes back, since asking it may move breakers.
unfoldable pub schedule_with :
    (String → ℕ)
    → (String → ℕ)
    → Bool
    → String
    → Context
    → InstanceRegistry
    → ConsistentHashPolicy
    → Result (InstanceRegistry × Option String)
unfolding select_from
schedule_with key_hash clock is_prompt model context registry r =
    let (registry', available) =
      Registry.get_available_instances clock (if is_prompt then "prefill" else "decode") model
        registry in
    if is_empty available
    then ok (registry', none)
    else (select_from key_hash (set_of available) context r >>= λ chosen. ok (registry', chosen))

-- `schedule` without one.
unfoldable pub schedule : (String → ℕ) → Context → ConsistentHashPolicy → Result (Option String)
unfolding select
schedule key_hash context r = select key_hash context r
