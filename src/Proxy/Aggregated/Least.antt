-- ===== src/Proxy/Aggregated/Least.antt =====
-- xpyd/proxy.py: whom `_schedule_aggregated_load_balanced` picks.
use micro_pdproxy.Base.{
  ℕ, ◌≤◌, String, ◌≡◌, refl, true, some, List, [], ◌∷◌, arith, ok, ltb, contains, if-elim,
}
use micro_pdproxy.Registry.{InstanceRegistry, get_active_requests}
use micro_pdproxy.Proxy.Aggregated.{schedule_aggregated_load_balanced, best_of}

-- Every one of them has at least as many active requests.
abbrev pub AllBusier : InstanceRegistry → ℕ → List String → Type 0
AllBusier r n [] = Unit
AllBusier r n (x ∷ xs) = (n ≤ get_active_requests x r) × AllBusier r n xs

module _ (r : InstanceRegistry) where
  best_of_lem :
      (best : String) (xs : List String)
      → (contains (best ∷ xs) (best_of r best (get_active_requests best r) xs) ≡ true)
        × AllBusier r
            (get_active_requests (best_of r best (get_active_requests best r) xs) r)
            (best ∷ xs)
  unfolding best_of
  best_of_lem best [] = (ground arith, (omega arith, tt))
  best_of_lem best (x ∷ xs) =
      if-elim
        (λ b.
          (contains (best ∷ x ∷ xs) b ≡ true)
          × AllBusier r (get_active_requests b r) (best ∷ x ∷ xs))
        (ltb (get_active_requests x r) (get_active_requests best r))
        (λ less.
          let (member, (le, rest)) = best_of_lem x xs in (ground arith, (ground arith, (le, rest))))
        (λ more.
          let (member, (le, rest)) = best_of_lem best xs in
          (ground arith, (le, (ground arith, rest))))

-- Of available instances, one at least, `_schedule_aggregated_load_balanced` picks one of them, and
-- no other has fewer active requests.
pub aggregated_least :
    (r : InstanceRegistry) (a : String) (others : List String)
    → (b : String) × (schedule_aggregated_load_balanced (some r) (a ∷ others) ≡ ok b)
      × (contains (a ∷ others) b ≡ true)
      × AllBusier r (get_active_requests b r) (a ∷ others)
unfolding schedule_aggregated_load_balanced
aggregated_least r a [] = (a, refl, ground arith, (omega arith, tt))
aggregated_least r a (x ∷ xs) =
    let (member, least) = best_of_lem r a (x ∷ xs) in
    (best_of r a (get_active_requests a r) (x ∷ xs), refl, member, least)
