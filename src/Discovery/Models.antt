-- ===== src/Discovery/Models.antt =====
-- xpyd/discovery.py: the callback for a discovered model, over any interleaving of probes.
use micro_pdproxy.Base.{
  ap, sym, ◌∙◌, ℕ, ◌≡◌, inl, inr, refl, String, true, false, none, some, List, [], ◌∷◌, ◌++◌,
  contains, ◌==◌, arith, Bool-cases, Result-cases, Distinct, ◌&&◌,
}
use micro_pdproxy.Registry
use micro_pdproxy.Registry.{InstanceRegistry, InstanceInfo}
use micro_pdproxy.Discovery.{
  NodeDiscovery, notify_model_discovered, probe_models, Listing, failed, refused, listed,
  models_listed,
}

-- A turn of a probe, with the registry it finds: up to its request for the models, or from the
-- answer on.
pub data Event : Type 0 where
  asked : ℕ → String → InstanceRegistry → Event
  answered : String → Listing → InstanceRegistry → Event

-- The state after a turn, and the callback's calls in it.
unfoldable pub turn : Event → NodeDiscovery → NodeDiscovery × List String
turn (asked now instance registry) s =
    let (registry', s', calls, request) = probe_models now instance registry s in (s', calls)
turn (answered instance listing registry) s =
    let (registry', s', calls) = models_listed instance listing registry s in (s', calls)

-- The callback's calls over a sequence of turns.
unfoldable pub calls : List Event → NodeDiscovery → List String
calls [] s = []
calls (e ∷ es) s = (turn e s).1 ++ calls es (turn e s).0

-- A turn calls back not at all, or for a model that was not yet notified and now is.
abbrev Noted : NodeDiscovery → NodeDiscovery × List String → Type 0
Noted s (s', []) = s'.notified_models ≡ s.notified_models
Noted s (s', m ∷ []) =
    (s'.notified_models ≡ m ∷ s.notified_models) × (contains s.notified_models m ≡ false)
Noted s (s', m ∷ (n ∷ ms)) = ⊥

notify-Noted : (model : String) (s : NodeDiscovery) → Noted s (notify_model_discovered model s)
unfolding notify_model_discovered
notify-Noted model s = elim (Bool-cases (contains s.notified_models model)) [
  | inl known ↦ rw (known, notify_model_discovered) refl
  | inr new ↦ rw (new, notify_model_discovered) (refl, new)
]

turn-Noted : (e : Event) (s : NodeDiscovery) → Noted s (turn e s)
unfolding turn probe_models models_listed
turn-Noted (asked now instance registry) s =
    elim (Result-cases (Registry.get_instance_info now instance registry)) [
      | inr (e, h) ↦ rw (h, probe_models) refl
      | inl ((registry', info), h) ↦ elim (Bool-cases (info.model == "")) [
        | inl unknown ↦ rw (h, probe_models, unknown) refl
        | inr known ↦ rw (h, probe_models, known) (notify-Noted info.model s)
      ]
    ]
turn-Noted (answered instance failed registry) s = refl
turn-Noted (answered instance refused registry) s = refl
turn-Noted (answered instance (listed none) registry) s = refl
turn-Noted (answered instance (listed (some name)) registry) s = elim (Bool-cases (name == "")) [
  | inl empty ↦ rw (empty, models_listed) refl
  | inr named ↦ elim (Result-cases (Registry.update_model instance name registry)) [
    | inr (e, h) ↦ rw (named, models_listed, h) refl
    | inl (registry', h) ↦ rw (named, models_listed, h) (notify-Noted name s)
  ]
]

abbrev Fresh : List String → NodeDiscovery → Type 0
Fresh called s =
    Distinct called
    × ((k : String) → contains called k ≡ true → contains s.notified_models k ≡ false)

turn-Fresh :
    (s s' : NodeDiscovery) (now rest : List String)
    → Noted s (s', now)
    → Fresh rest s'
    → Fresh (now ++ rest) s
turn-Fresh s s' [] rest same (once, new) =
    (once, λ k h. sym (ap (λ xs. contains xs k) same) ∙ new k h)
turn-Fresh s s' (m ∷ []) rest (noted, unknown) (once, new) =
    let new' : (k : String) → contains rest k ≡ true → contains (m ∷ s.notified_models) k ≡ false =
      λ k h. sym (ap (λ xs. contains xs k) noted) ∙ new k h in
    ((ground (arith, new' m), once), λ k h. ground (arith, new' k, unknown))
turn-Fresh s s' (m ∷ (n ∷ ms)) rest noted fresh = absurd noted

calls-Fresh : (es : List Event) (s : NodeDiscovery) → Fresh (calls es s) s
unfolding calls
calls-Fresh [] s = (tt, λ k h. ground arith)
calls-Fresh (e ∷ es) s =
    turn-Fresh s (turn e s).0 (turn e s).1 (calls es (turn e s).0) (turn-Noted e s)
      (calls-Fresh es (turn e s).0)

-- Over any interleaving of the probes' turns, each with whatever registry it finds, the callback is
-- called at most once for each model, and not for one that was already notified.
pub calls_once :
    (es : List Event) (s : NodeDiscovery) (k : String)
    → Distinct (calls es s) × ((contains (calls es s) k && contains s.notified_models k) ≡ false)
calls_once es s k = let (once, new) = calls-Fresh es s in (once, ground (arith, new k))
