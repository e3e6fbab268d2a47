-- ===== src/Registry/Availability.antt =====
-- xpyd/registry.py: which instances `get_available_instances` returns.
use micro_pdproxy.Base.{
  ℕ, ◌≡◌, refl, String, Bool, false, not, ◌&&◌, ◌||◌, Option, none, some, [], ◌∷◌, arith, ◌==◌,
  contains, Distinct, string_discrete, ◌∙◌,
}
use micro_pdproxy.Base.Dict
use micro_pdproxy.Base.Dict.{Dict}
use micro_pdproxy.CircuitBreaker.{current_state, is_closed}
use micro_pdproxy.Registry.{
  InstanceRecord, InstanceRegistry, is_healthy, consider, scan, get_available_instances,
}
use micro_pdproxy.Registry.Invariant.{IsEntry, IsValid}

-- Healthy, of the role and the model, and with a closed breaker if breakers are enabled.
abbrev pub is_available : Bool → String → String → ℕ → InstanceRecord → Bool
is_available cb_enabled role model now i =
    i.role == role
    && (model == "" || i.model == model)
    && is_healthy i.status
    && (not cb_enabled || is_closed (current_state now i.circuit_breaker).state)

abbrev pub available? : Bool → String → String → ℕ → Option InstanceRecord → Bool
available? cb_enabled role model now none = false
available? cb_enabled role model now (some i) = is_available cb_enabled role model now i

consider-is_available :
    (cb_enabled : Bool) (role model : String) (now : ℕ) (i : InstanceRecord)
    → (consider cb_enabled role model now i).1 ≡ is_available cb_enabled role model now i
unfolding consider
consider-is_available cb_enabled role model now i = ground arith

module _ (cb_enabled : Bool) (role model : String) (clock : String → ℕ) where
  scan_absent :
      (d : Dict InstanceRecord) (a : String)
      → Dict.AllEntries IsEntry d
      → contains (Dict.keys d) a ≡ false
      → contains (scan cb_enabled role model clock d).1 a ≡ false
  unfolding scan
  scan_absent [] a e h = refl
  scan_absent ((k, i) ∷ d) a e h = ground (arith, scan_absent d a e.1, e.0.named)

  abbrev taken? : ℕ → Option InstanceRecord → Bool
  taken? now none = false
  taken? now (some i) = (consider cb_enabled role model now i).1

  scan-contains :
      (d : Dict InstanceRecord) (a : String)
      → Dict.AllEntries IsEntry d
      → Distinct (Dict.keys d)
      → contains (scan cb_enabled role model clock d).1 a ≡ taken? (clock a) (Dict.get d a)
  unfolding scan Dict.get
  scan-contains [] a e u = refl
  scan-contains ((k, i) ∷ d) a e u = elim (string_discrete k a) [
    | yes same ↦ ground (arith, scan_absent d a e.1, e.0.named)
    | no other ↦ ground (arith, scan-contains d a e.1 u.1, e.0.named)
  ]

  scan-Distinct :
      (d : Dict InstanceRecord)
      → Dict.AllEntries IsEntry d
      → Distinct (Dict.keys d)
      → Distinct (scan cb_enabled role model clock d).1
  unfolding scan
  scan-Distinct [] e u = u
  scan-Distinct ((k, i) ∷ d) e u =
      ground (arith, scan-Distinct d e.1 u.1, scan_absent d k e.1 u.0, e.0.named)

  taken-available :
      (now : ℕ) (o : Option InstanceRecord) → taken? now o ≡ available? cb_enabled role model now o
  taken-available now none = refl
  taken-available now (some i) = consider-is_available cb_enabled role model now i

-- An address is returned exactly when it is registered with the role asked for, serves the model
-- asked for (or none is asked for), is healthy and, where breakers are enabled, has a closed one
-- after its timeout has been looked at. No address is returned twice.
pub available-contains :
    (clock : String → ℕ) (role model : String) (r : InstanceRegistry) (a : String)
    → IsValid r
    → (contains (get_available_instances clock role model r).1 a
        ≡ available? r.cb_enabled role model (clock a) (Dict.get r.instances a))
      × Distinct (get_available_instances clock role model r).1
unfolding get_available_instances
available-contains clock role model r a v = (
  scan-contains r.cb_enabled role model clock r.instances a v.entries v.distinct
      ∙ taken-available r.cb_enabled role model clock (clock a) (Dict.get r.instances a),
  scan-Distinct r.cb_enabled role model clock r.instances v.entries v.distinct,
)
