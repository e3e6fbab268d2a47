-- ===== src/Scheduler/ConsistentHash/Ring.antt =====
-- xpyd/scheduler/consistent_hash.py: the sorted keys and the map of the ring agree, through every
-- collision, addition and removal.
use micro_pdproxy.Base.{
  sym, ◌∙◌, inl, inr, ℕ, zero, suc, ◌+◌, ◌%◌, ◌<◌, ◌≡◌, refl, String, true, false, Option, none,
  some, List, [], ◌∷◌, length, is_empty, get_elem?, get_elem?_lt, contains, if-intro, ok, arith,
  Bool-cases,
}
use native.Mathlib.Nat.{mod-lt}
use micro_pdproxy.Scheduler.Ring.{bisect_right}
use micro_pdproxy.Scheduler.ConsistentHash.{
  ConsistentHashPolicy, get_at, has_at, add_vnode, add_vnodes, add_worker, remove_vnode,
  remove_vnodes, remove_worker, discard, empty, worker_at, Context, select, select_from, walk,
  routing_key, is_owner,
}
use micro_pdproxy.Scheduler.ConsistentHash.Keys.{
  StrictFrom, has_key, insort-StrictFrom, has_key-insort, drop_key-StrictFrom, has_key-drop_key,
  OnceAt, has_at-delete_at, delete_at-OnceAt, get_at_of-has_at,
}

-- The keys are in strictly ascending order, and they are the positions in the map, each there once.
pub record IsValid (r : ConsistentHashPolicy) : Type 0 where
  pub ascending : StrictFrom 0 r.ring_keys
  pub agree : (h : ℕ) → has_key r.ring_keys h ≡ has_at r.ring_map h
  pub once : OnceAt r.ring_map

add_vnode-IsValid :
    (h : ℕ) (addr : String) (r : ConsistentHashPolicy) → IsValid r → IsValid (add_vnode h addr r)
unfolding add_vnode has_at
add_vnode-IsValid h addr r v = elim (Bool-cases (has_at r.ring_map h)) [
  | inl taken ↦ rw (add_vnode, taken) v
  | inr free ↦
      rw (add_vnode, free)
        (record {
          ascending =
              insort-StrictFrom 0 h r.ring_keys (omega arith) (v.agree h ∙ free) v.ascending;
          agree = λ j. ground (arith, has_key-insort h j r.ring_keys, v.agree j);
          once = (free, v.once);
        })
]

remove_vnode-IsValid :
    (h : ℕ) (addr : String) (r : ConsistentHashPolicy) → IsValid r → IsValid (remove_vnode h addr r)
unfolding remove_vnode
remove_vnode-IsValid h addr r v =
    if-intro IsValid (is_owner (get_at r.ring_map h) addr)
      (record {
        ascending = drop_key-StrictFrom 0 h r.ring_keys v.ascending;
        agree = λ j. ground (
          arith,
          has_key-drop_key 0 h j r.ring_keys v.ascending,
          has_at-delete_at h j r.ring_map v.once,
          v.agree j,
        );
        once = delete_at-OnceAt h r.ring_map v.once;
      })
      v

pub data Call : Type 0 where
  add : String → Call
  remove : String → Call

module _ (vnode_hash : String → ℕ → ℕ) where
  add_vnodes-IsValid :
      (addr : String) (left i : ℕ) (r : ConsistentHashPolicy)
      → IsValid r
      → IsValid (add_vnodes vnode_hash addr left i r)
  unfolding add_vnodes
  add_vnodes-IsValid addr zero i r v = v
  add_vnodes-IsValid addr (suc left) i r v =
      add_vnodes-IsValid addr left (suc i) (add_vnode (vnode_hash addr i) addr r)
        (add_vnode-IsValid (vnode_hash addr i) addr r v)

  remove_vnodes-IsValid :
      (addr : String) (left i : ℕ) (r : ConsistentHashPolicy)
      → IsValid r
      → IsValid (remove_vnodes vnode_hash addr left i r)
  unfolding remove_vnodes
  remove_vnodes-IsValid addr zero i r v = v
  remove_vnodes-IsValid addr (suc left) i r v =
      remove_vnodes-IsValid addr left (suc i) (remove_vnode (vnode_hash addr i) addr r)
        (remove_vnode-IsValid (vnode_hash addr i) addr r v)

  unfoldable pub step : Call → ConsistentHashPolicy → ConsistentHashPolicy
  step (add a) r = add_worker vnode_hash a r
  step (remove a) r = remove_worker vnode_hash a r

  unfoldable pub run : List Call → ConsistentHashPolicy → ConsistentHashPolicy
  run [] r = r
  run (c ∷ cs) r = run cs (step c r)

  step-IsValid : (c : Call) (r : ConsistentHashPolicy) → IsValid r → IsValid (step c r)
  unfolding step add_worker remove_worker
  step-IsValid (add a) r v = if-intro IsValid (contains r.workers a) v (
      add_vnodes-IsValid a r.virtual_nodes 0 (record r { workers = a ∷ r.workers })
        (record { ascending = v.ascending; agree = v.agree; once = v.once }))
  step-IsValid (remove a) r v =
      if-intro IsValid (contains r.workers a)
        (remove_vnodes-IsValid a r.virtual_nodes 0 (record r { workers = discard a r.workers })
          (record { ascending = v.ascending; agree = v.agree; once = v.once }))
        v

  -- Adding and removing workers keeps a ring valid, whatever the hash function and its collisions:
  -- the keys stay in strictly ascending order and stay the positions in the map, each there once.
  pub ring_run-IsValid :
      (cs : List Call) (r : ConsistentHashPolicy) → IsValid r → IsValid (run cs r)
  unfolding run
  ring_run-IsValid [] r v = v
  ring_run-IsValid (c ∷ cs) r v = ring_run-IsValid cs (step c r) (step-IsValid c r v)

empty-IsValid : (n : ℕ) → IsValid (empty n)
unfolding has_at
empty-IsValid n = record { ascending = tt; agree = λ h. refl; once = tt }

-- A worker with a point on the ring; none only on an empty ring.
abbrev pub Owner : ConsistentHashPolicy → Option String → Type 0
Owner r none = r.ring_keys ≡ []
Owner r (some w) = (h : ℕ) × (get_at r.ring_map h ≡ some w)

has_key-get_elem? : (ks : List ℕ) (i h : ℕ) → get_elem? ks i ≡ some h → has_key ks h ≡ true
has_key-get_elem? [] i h e = ground arith
has_key-get_elem? (k ∷ ks) zero h e = ground arith
has_key-get_elem? (k ∷ ks) (suc i) h e = ground (arith, has_key-get_elem? ks i h e)

worker_at_lem :
    (r : ConsistentHashPolicy) (i : ℕ)
    → IsValid r
    → i < length r.ring_keys
    → (w : String) × (worker_at r i ≡ ok w) × ((h : ℕ) × (get_at r.ring_map h ≡ some w))
worker_at_lem r i v lt =
    let (h, at_i) = get_elem?_lt r.ring_keys i lt in
    let (w, found) =
      get_at_of-has_at r.ring_map h (sym (v.agree h) ∙ has_key-get_elem? r.ring_keys i h at_i) in
    (w, unfold worker_at in rw (at_i, found) refl, (h, found))

is_empty-nil : (ks : List ℕ) → is_empty ks ≡ true → ks ≡ []
is_empty-nil [] h = refl
is_empty-nil (k ∷ ks) h = ground arith

length_pos : (ks : List ℕ) → is_empty ks ≡ false → 0 < length ks
length_pos [] h = ground arith
length_pos (k ∷ ks) h = omega arith

-- On any ring made by adding and removing workers, with any hash functions and any collisions
-- between them, `select` never raises; it returns a worker that has a point on the ring, and nothing
-- only if the ring is empty.
pub ring_select_lem :
    (vnode_hash : String → ℕ → ℕ) (cs : List Call) (n : ℕ) (key_hash : String → ℕ)
    (context : Context)
    → (o : Option String) × (select key_hash context (run vnode_hash cs (empty n)) ≡ ok o)
      × Owner (run vnode_hash cs (empty n)) o
unfolding select
ring_select_lem vnode_hash cs n key_hash context =
    let r = run vnode_hash cs (empty n) in
    let v = ring_run-IsValid vnode_hash cs (empty n) (empty-IsValid n) in
    elim (Bool-cases (is_empty r.ring_keys)) [
      | inl nothing ↦ (none, rw (nothing, select) refl, is_empty-nil r.ring_keys nothing)
      | inr some_key ↦
          (let (w, found, owned) =
              worker_at_lem r
                (bisect_right r.ring_keys (key_hash (routing_key context)) % length r.ring_keys) v
                (mod-lt _ (length_pos r.ring_keys some_key)) in
            (some w, rw (some_key, select, found) refl, owned))
    ]

-- A candidate with a point on the ring.
abbrev pub Candidate : List String → ConsistentHashPolicy → Option String → Type 0
Candidate candidates r none = Unit
Candidate candidates r (some w) =
    (contains candidates w ≡ true) × ((h : ℕ) × (get_at r.ring_map h ≡ some w))

walk_lem :
    (candidates : List String) (r : ConsistentHashPolicy) (start left i : ℕ)
    → IsValid r
    → 0 < length r.ring_keys
    → (o : Option String) × (walk candidates r start left i ≡ ok o) × Candidate candidates r o
unfolding walk
walk_lem candidates r start zero i v p = (none, refl, tt)
walk_lem candidates r start (suc left) i v p =
    let (w, found, owned) =
      worker_at_lem r ((start + i) % length r.ring_keys) v (mod-lt (start + i) p) in
    elim (Bool-cases (contains candidates w)) [
      | inl good ↦ (some w, rw (walk, found, good) refl, (good, owned))
      | inr bad ↦
          (let (o, rest, ok_o) = walk_lem candidates r start left (suc i) v p in
            (o, rw (walk, found, bad) rest, ok_o))
    ]

-- On any such ring `select_from` never raises, and whatever it returns is one of the candidates and
-- has a point on the ring.
pub ring_select_from_lem :
    (vnode_hash : String → ℕ → ℕ) (cs : List Call) (n : ℕ) (key_hash : String → ℕ)
    (candidates : List String) (context : Context)
    → (o : Option String) × (select_from key_hash candidates context (run vnode_hash cs (empty n))
        ≡ ok o)
      × Candidate candidates (run vnode_hash cs (empty n)) o
unfolding select_from
ring_select_from_lem vnode_hash cs n key_hash candidates context =
    let r = run vnode_hash cs (empty n) in
    let v = ring_run-IsValid vnode_hash cs (empty n) (empty-IsValid n) in
    elim (Bool-cases (is_empty r.ring_keys)) [
      | inl nothing ↦ (none, rw (nothing, select_from) refl, tt)
      | inr some_key ↦ elim (Bool-cases (is_empty candidates)) [
        | inl nobody ↦ (none, rw (some_key, select_from, nobody) refl, tt)
        | inr somebody ↦
            (let (o, walked, good) =
                walk_lem candidates r
                  (bisect_right r.ring_keys (key_hash (routing_key context)) % length r.ring_keys)
                  (length r.ring_keys) 0 v (length_pos r.ring_keys some_key) in
              (o, rw (some_key, select_from, somebody) walked, good))
      ]
    ]
