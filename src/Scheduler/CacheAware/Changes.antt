-- ===== src/Scheduler/CacheAware/Changes.antt =====
-- xpyd/scheduler/cache_aware.py: what happens to the keys when a worker joins or leaves the ring.
use micro_pdproxy.Base.{
  ℕ, ◌≤◌, ◌≡◌, ◌≢◌, ◌⊎◌, inl, inr, refl, ◌∙◌, sym, String, not, ◌&&◌, some, List, [], ◌∷◌, length,
  ◌==◌, contains, ok, Result, Option, ap, arith, Bool-cases,
}
use micro_pdproxy.Scheduler.Ring.{Point, without, AscendingFrom}
use micro_pdproxy.Scheduler.Ring.Owner.{owner-without, owner_joined, without_absent, owns-without}
use micro_pdproxy.Scheduler.CacheAware.{
  ConsistentHashRing, empty, add_worker, rebuild, discard, remove_worker, get,
}
use micro_pdproxy.Scheduler.CacheAware.Points.{zip, points, IsValid, get-owner, add_vnodes-points}

-- A new ring is valid.
pub empty-IsValid : (vnodes : ℕ) → IsValid (empty vnodes)
unfolding empty
empty-IsValid vnodes = record { parallel = refl; ascending = tt; owned = λ a h. h }

module _ (a : String) where
  rebuild-parallel :
      (ks : List ℕ) (ws : List String) → length (rebuild a ks ws).0 ≡ length (rebuild a ks ws).1
  unfolding rebuild
  rebuild-parallel [] ws = refl
  rebuild-parallel (k ∷ ks) [] = refl
  rebuild-parallel (k ∷ ks) (w ∷ ws) = ground (arith, rebuild-parallel ks ws)

  rebuild-zip :
      (ks : List ℕ) (ws : List String)
      → zip (rebuild a ks ws).0 (rebuild a ks ws).1 ≡ without a (zip ks ws)
  unfolding rebuild without
  rebuild-zip [] ws = refl
  rebuild-zip (k ∷ ks) [] = refl
  rebuild-zip (k ∷ ks) (w ∷ ws) = ground (arith, rebuild-zip ks ws)

  Ascending-weaken :
      (low low' : ℕ) (ps : List Point) → low' ≤ low → AscendingFrom low ps → AscendingFrom low' ps
  Ascending-weaken low low' [] p h = tt
  Ascending-weaken low low' ((q, w) ∷ ps) p h = (omega arith, h.1)

  Ascending-without :
      (low : ℕ) (ps : List Point) → AscendingFrom low ps → AscendingFrom low (without a ps)
  unfolding without
  Ascending-without low [] h = h
  Ascending-without low ((p, w) ∷ ps) h = elim (Bool-cases (w == a)) [
    | inl own ↦ rw own (Ascending-weaken p low (without a ps) h.0 (Ascending-without p ps h.1))
    | inr other ↦ rw other (h.0, Ascending-without p ps h.1)
  ]

  contains-discard :
      (xs : List String) (x : String) → contains (discard a xs) x ≡ (not (a == x) && contains xs x)
  contains-discard [] x = ground arith
  contains-discard (y ∷ xs) x = ground (arith, contains-discard xs x)

  remove_worker-points :
      (r : ConsistentHashRing) → IsValid r → points (remove_worker a r) ≡ without a (points r)
  unfolding remove_worker
  remove_worker-points r v = elim (Bool-cases (contains r.workers a)) [
    | inl member ↦ rw member (rebuild-zip r.ring_keys r.ring_workers)
    | inr stranger ↦ rw stranger (sym (without_absent a (points r) (ground (arith, v.owned a))))
  ]

  -- Removing a worker keeps a ring valid.
  pub remove_worker-IsValid : (r : ConsistentHashRing) → IsValid r → IsValid (remove_worker a r)
  unfolding remove_worker
  remove_worker-IsValid r v = elim (Bool-cases (contains r.workers a)) [
    | inl member ↦ rw member (record {
      parallel = rebuild-parallel r.ring_keys r.ring_workers;
      ascending =
          rw (rebuild-zip r.ring_keys r.ring_workers) (Ascending-without 0 (points r) v.ascending);
      owned = λ x o. ground (
        arith,
        rebuild-zip r.ring_keys r.ring_workers,
        owns-without a x (points r),
        contains-discard r.workers x,
        v.owned x,
      );
    })
    | inr stranger ↦ rw stranger v
  ]

  -- When a worker leaves a valid ring, every key that another worker served stays with it.
  pub get-remove_worker :
      (r : ConsistentHashRing) (key : ℕ) (w : String)
      → IsValid r
      → w ≢ a
      → get key r ≡ ok (some w)
      → get key (remove_worker a r) ≡ ok (some w)
  get-remove_worker r key w v other h =
      get-owner (remove_worker a r) key (remove_worker-IsValid r v)
      ∙ (rw (remove_worker-points r v) (
          ap {B = Result (Option String)} (λ o. ok o)
            (owner-without a w (points r) key other (ground (arith, get-owner r key v)))))

  add_worker-facts :
      (hash : String → ℕ → ℕ) (r : ConsistentHashRing)
      → IsValid r
      → IsValid (add_worker hash a r)
        × ((without a (points (add_worker hash a r)) ≡ points r) ⊎ (add_worker hash a r ≡ r))
  unfolding add_worker
  add_worker-facts hash r v = elim (Bool-cases (contains r.workers a)) [
    | inl member ↦ rw member (v, inr refl)
    | inr stranger ↦
        let r' : ConsistentHashRing = record r { workers = a ∷ r.workers } in
        let v' : IsValid r' = record {
          parallel = v.parallel;
          ascending = v.ascending;
          owned = λ x o. ground (arith, v.owned x);
        } in
        let all = add_vnodes-points hash a r.vnodes 0 r' (ground arith) v' in
        rw stranger (all.0, inl (all.1 ∙ without_absent a (points r) (ground (arith, v.owned a))))
  ]

  -- Adding a worker keeps a ring valid.
  pub add_worker-IsValid :
      (hash : String → ℕ → ℕ) (r : ConsistentHashRing) → IsValid r → IsValid (add_worker hash a r)
  add_worker-IsValid hash r v = (add_worker-facts hash r v).0

  -- When a worker joins a valid ring, every key is served by the worker that served it before, or
  -- by the new one, whatever the hash function is.
  pub get-add_worker :
      (hash : String → ℕ → ℕ) (r : ConsistentHashRing) (key : ℕ) (w : String)
      → IsValid r
      → get key (add_worker hash a r) ≡ ok (some w)
      → (w ≡ a) ⊎ (get key r ≡ ok (some w))
  get-add_worker hash r key w v h = elim (add_worker-facts hash r v).1 [
    | inl fresh ↦
        elim (owner_joined a w (points r) (points (add_worker hash a r)) key fresh
          (ground (arith, get-owner (add_worker hash a r) key (add_worker-IsValid hash r v)))) [
            | inl new ↦ inl new
            | inr old ↦ inr (get-owner r key v ∙ ap {B = Result (Option String)} (λ o. ok o) old)
          ]
    | inr same ↦ inr (rw same at h)
  ]
