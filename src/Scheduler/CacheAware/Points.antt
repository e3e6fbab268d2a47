-- ===== src/Scheduler/CacheAware/Points.antt =====
-- xpyd/scheduler/cache_aware.py: the parallel lists of the ring as points, and what the methods do
-- to them.
use micro_pdproxy.Base.{
  ℕ, zero, suc, ◌≤◌, ◌≡◌, refl, ◌∙◌, String, true, none, List, [], ◌∷◌, length, get_elem?,
  get_elem?_lt, insert_at, eqb, ◌==◌, contains, if◌then◌else◌, ok, arith, Bool-cases, inl, inr,
}
use micro_pdproxy.Scheduler.Ring.{
  Point, bisect_left, bisect_right, first_after, owner, without, owns, AscendingFrom,
}
use micro_pdproxy.Scheduler.CacheAware.{ConsistentHashRing, add_vnode, add_vnodes, get}

abbrev pub zip : List ℕ → List String → List Point
zip [] ws = []
zip (k ∷ ks) [] = []
zip (k ∷ ks) (w ∷ ws) = (k, w) ∷ zip ks ws

abbrev pub points : ConsistentHashRing → List Point
points r = zip r.ring_keys r.ring_workers

pub record IsValid (r : ConsistentHashRing) : Type 0 where
  pub parallel : length r.ring_keys ≡ length r.ring_workers
  pub ascending : AscendingFrom 0 (points r)
  pub owned : (a : String) → owns (points r) a ≡ true → contains r.workers a ≡ true

-- `get` answers as the points do.
get_elem?-after :
    (ks : List ℕ) (ws : List String) (key : ℕ)
    → length ks ≡ length ws
    → first_after (zip ks ws) key ≡ get_elem? ws (bisect_right ks key)
unfolding first_after bisect_right
get_elem?-after [] [] key e = refl
get_elem?-after [] (w ∷ ws) key e = absurd (omega arith)
get_elem?-after (k ∷ ks) [] key e = absurd (omega arith)
get_elem?-after (k ∷ ks) (w ∷ ws) key e = ground (arith, get_elem?-after ks ws key)

pub bisect_right-le : (ks : List ℕ) (key : ℕ) → bisect_right ks key ≤ length ks
unfolding bisect_right
bisect_right-le [] key = omega arith
bisect_right-le (k ∷ ks) key = ground (arith, bisect_right-le ks key)

get_elem?_past : (ws : List String) (i : ℕ) → length ws ≤ i → get_elem? ws i ≡ none
get_elem?_past [] i h = refl
get_elem?_past (w ∷ ws) zero h = absurd (omega arith)
get_elem?_past (w ∷ ws) (suc i) h = get_elem?_past ws i (omega arith)

get-owner_lists :
    (ks : List ℕ) (ws : List String) (key : ℕ) (r : ConsistentHashRing)
    → length ks ≡ length ws
    → get key (record r { ring_keys = ks; ring_workers = ws }) ≡ ok (owner (zip ks ws) key)
unfolding get owner
get-owner_lists [] ws key r e = refl
get-owner_lists (k ∷ ks) [] key r e = absurd (omega arith)
get-owner_lists (k ∷ ks) (w ∷ ws) key r e =
    elim (Bool-cases (eqb (bisect_right (k ∷ ks) key) (length (k ∷ ks)))) [
      | inl past ↦ ground (
        arith,
        get_elem?-after (k ∷ ks) (w ∷ ws) key e,
        get_elem?_past (w ∷ ws) (bisect_right (k ∷ ks) key),
      )
      | inr here ↦
          let (x, found) =
            get_elem?_lt (w ∷ ws) (bisect_right (k ∷ ks) key)
              (ground (arith, bisect_right-le (k ∷ ks) key)) in
          ground (arith, get_elem?-after (k ∷ ks) (w ∷ ws) key e, found)
    ]

-- `get` never raises on a valid ring, and returns the owner of the key among the points.
pub get-owner :
    (r : ConsistentHashRing) (key : ℕ) → IsValid r → get key r ≡ ok (owner (points r) key)
get-owner r key v = get-owner_lists r.ring_keys r.ring_workers key r v.parallel

-- A virtual node is inserted at the same index of both lists.
module _ (h : ℕ) (a : String) where
  abbrev keys_with : List ℕ → List ℕ
  keys_with ks = insert_at (bisect_left ks h) h ks

  abbrev workers_with : List ℕ → List String → List String
  workers_with ks ws = insert_at (bisect_left ks h) a ws

  insert-parallel :
      (ks : List ℕ) (ws : List String)
      → length ks ≡ length ws
      → length (keys_with ks) ≡ length (workers_with ks ws)
  unfolding bisect_left
  insert-parallel [] [] e = refl
  insert-parallel [] (w ∷ ws) e = absurd (omega arith)
  insert-parallel (k ∷ ks) [] e = absurd (omega arith)
  insert-parallel (k ∷ ks) (w ∷ ws) e = ground (arith, insert-parallel ks ws)

  insert-without :
      (ks : List ℕ) (ws : List String)
      → length ks ≡ length ws
      → without a (zip (keys_with ks) (workers_with ks ws)) ≡ without a (zip ks ws)
  unfolding bisect_left without
  insert-without [] [] e = ground arith
  insert-without [] (w ∷ ws) e = absurd (omega arith)
  insert-without (k ∷ ks) [] e = absurd (omega arith)
  insert-without (k ∷ ks) (w ∷ ws) e = ground (arith, insert-without ks ws)

  insert-ascending :
      (low : ℕ) (ks : List ℕ) (ws : List String)
      → length ks ≡ length ws
      → low ≤ h
      → AscendingFrom low (zip ks ws)
      → AscendingFrom low (zip (keys_with ks) (workers_with ks ws))
  unfolding bisect_left
  insert-ascending low [] [] e p s = ground arith
  insert-ascending low [] (w ∷ ws) e p s = absurd (omega arith)
  insert-ascending low (k ∷ ks) [] e p s = absurd (omega arith)
  insert-ascending low (k ∷ ks) (w ∷ ws) e p s = ground (arith, insert-ascending k ks ws)

  insert-owns :
      (ks : List ℕ) (ws : List String) (x : String)
      → length ks ≡ length ws
      → owns (zip (keys_with ks) (workers_with ks ws)) x
        ≡ (if a == x then true else owns (zip ks ws) x)
  unfolding bisect_left
  insert-owns [] [] x e = refl
  insert-owns [] (w ∷ ws) x e = absurd (omega arith)
  insert-owns (k ∷ ks) [] x e = absurd (omega arith)
  insert-owns (k ∷ ks) (w ∷ ws) x e = ground (arith, insert-owns ks ws x)

  add_vnode-IsValid :
      (r : ConsistentHashRing) → contains r.workers a ≡ true → IsValid r → IsValid (add_vnode h a r)
  unfolding add_vnode
  add_vnode-IsValid r m v = record {
    parallel = insert-parallel r.ring_keys r.ring_workers v.parallel;
    ascending = insert-ascending 0 r.ring_keys r.ring_workers v.parallel (omega arith) v.ascending;
    owned = λ x o. ground (arith, insert-owns r.ring_keys r.ring_workers x v.parallel, v.owned x);
  }

-- The loop of `add_worker` only adds points of the new worker.
pub add_vnodes-points :
    (hash : String → ℕ → ℕ) (a : String) (left i : ℕ) (r : ConsistentHashRing)
    → contains r.workers a ≡ true
    → IsValid r
    → IsValid (add_vnodes hash a left i r)
      × (without a (points (add_vnodes hash a left i r)) ≡ without a (points r))
      × ((add_vnodes hash a left i r).workers ≡ r.workers)
unfolding add_vnodes
add_vnodes-points hash a zero i r m v = (v, refl, refl)
add_vnodes-points hash a (suc left) i r m v =
    let r' = add_vnode (hash a i) a r in
    let ih =
      add_vnodes-points hash a left (suc i) r' (unfold add_vnode in m)
        (add_vnode-IsValid (hash a i) a r m v) in
    (
      ih.0,
      ih.1
          ∙ (unfold add_vnode in insert-without (hash a i) a r.ring_keys r.ring_workers v.parallel),
      ih.2 ∙ (unfold add_vnode in refl),
    )
