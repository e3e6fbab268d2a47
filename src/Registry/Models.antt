-- ===== src/Registry/Models.antt =====
-- xpyd/registry.py: the models that the registered instances serve.
use micro_pdproxy.Base.{
  ◌≡◌, ◌∙◌, String, Bool, false, not, ◌&&◌, ◌||◌, [], ◌∷◌, arith, ◌==◌, contains, Distinct,
  IsSorted, set_of, sorted-IsSorted, sorted-Distinct, set_of-Distinct, contains-sorted,
  contains-set_of,
}
use micro_pdproxy.Base.Dict.{Dict}
use micro_pdproxy.Registry.{InstanceRecord, InstanceRegistry, models_of, get_registered_models}

-- Some entry serves the model.
abbrev pub serves : String → Dict InstanceRecord → Bool
serves m [] = false
serves m ((k, i) ∷ d) = i.model == m || serves m d

models_of-contains :
    (m : String) (d : Dict InstanceRecord)
    → contains (models_of d) m ≡ (not (m == "") && serves m d)
unfolding models_of
models_of-contains m [] = ground arith
models_of-contains m ((k, i) ∷ d) = ground (arith, models_of-contains m d)

-- The models returned are in ascending order, none twice, and they are exactly the models other
-- than "" that some registered instance serves.
pub registered_models :
    (r : InstanceRegistry) (m : String)
    → IsSorted (get_registered_models r)
      × Distinct (get_registered_models r)
      × (contains (get_registered_models r) m ≡ (not (m == "") && serves m r.instances))
unfolding get_registered_models
registered_models r m =
    let models = models_of r.instances in
    (
      sorted-IsSorted (set_of models),
      sorted-Distinct (set_of models) (set_of-Distinct models),
      contains-sorted (set_of models) m
          ∙ contains-set_of models m
          ∙ models_of-contains m r.instances,
    )
