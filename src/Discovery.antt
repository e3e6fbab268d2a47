-- ===== src/Discovery.antt =====
-- xpyd/discovery.py: `NodeDiscovery`, what is configured and known to be healthy in each role, and
-- what a probe's answers do to it. The loop that starts the probes, the heartbeat's log lines and
-- the timeout's warning are left out; the proxy's registry is the one of xpyd/registry.py.
pub mod Ready
pub mod Models
use micro_pdproxy.Base.{
  ℕ, String, Bool, true, false, not, ◌&&◌, ◌||◌, Option, none, some, List, [], ◌∷◌, ◌++◌, is_empty,
  contains, eqb, if◌then◌else◌, ◌==◌, Result, ok, raise,
}
use micro_pdproxy.Registry
use micro_pdproxy.Registry.{InstanceRegistry, InstanceInfo}

pub record NodeDiscovery : Type 0 where
  pub prefill_instances : List String
  pub decode_instances : List String
  pub aggregated_instances : List String
  pub healthy_prefill : List String
  pub healthy_decode : List String
  pub healthy_aggregated : List String
  pub notified_models : List String

-- __init__
unfoldable pub init : List String → List String → List String → NodeDiscovery
init prefill decode aggregated = record {
  prefill_instances = prefill;
  decode_instances = decode;
  aggregated_instances = aggregated;
  healthy_prefill = [];
  healthy_decode = [];
  healthy_aggregated = [];
  notified_models = [];
}

-- Whether `set(a) & b` is not empty.
abbrev pub meets : List String → List String → Bool
meets [] b = false
meets (x ∷ a) b = if contains b x then true else meets a b

unfoldable pub is_ready : NodeDiscovery → Bool
is_ready s =
    (not (is_empty s.decode_instances)
      && (meets s.decode_instances s.healthy_decode
          && (is_empty s.prefill_instances || meets s.prefill_instances s.healthy_prefill)))
    || meets s.aggregated_instances s.healthy_aggregated

-- list.remove on a list that has the item: the first of its occurrences.
abbrev pub remove_first : String → List String → List String
remove_first a [] = []
remove_first a (x ∷ xs) = if x == a then xs else x ∷ remove_first a xs

-- set.discard and set.add
abbrev pub discard : String → List String → List String
discard a [] = []
discard a (x ∷ xs) = if x == a then discard a xs else x ∷ discard a xs

abbrev pub add : String → List String → List String
add a xs = if contains xs a then xs else a ∷ xs

unfoldable pub remove_instance : String → String → NodeDiscovery → NodeDiscovery
remove_instance role address s =
    if role == "prefill"
    then record s {
      prefill_instances = remove_first address s.prefill_instances;
      healthy_prefill = discard address s.healthy_prefill;
    }
    else if role == "decode"
    then record s {
      decode_instances = remove_first address s.decode_instances;
      healthy_decode = discard address s.healthy_decode;
    }
    else record s {
      aggregated_instances = remove_first address s.aggregated_instances;
      healthy_aggregated = discard address s.healthy_aggregated;
    }

abbrev pub append_new : String → List String → List String
append_new a xs = if contains xs a then xs else xs ++ (a ∷ [])

unfoldable pub add_instance : String → String → NodeDiscovery → NodeDiscovery
add_instance role address s =
    if role == "prefill"
    then record s {
      prefill_instances = append_new address s.prefill_instances;
      healthy_prefill = add address s.healthy_prefill;
    }
    else if role == "decode"
    then record s {
      decode_instances = append_new address s.decode_instances;
      healthy_decode = add address s.healthy_decode;
    }
    else record s {
      aggregated_instances = append_new address s.aggregated_instances;
      healthy_aggregated = add address s.healthy_aggregated;
    }

-- The answer to GET /health: a status, or an exception.
pub data Health : Type 0 where
  status : ℕ → Health
  unreachable : Health

-- One of `_probe_node`'s healthy sets after the answer for an instance.
abbrev pub settled : Health → String → List String → List String → List String
settled (status code) a configured healthy =
    if contains configured a
    then (if eqb code 200 then add a healthy else discard a healthy)
    else discard a healthy
settled unreachable a configured healthy = discard a healthy

-- The rest of `_probe_node` once its answer has come, up to the probe of the models.
unfoldable pub probe_node : String → String → Health → NodeDiscovery → NodeDiscovery
probe_node instance role answer s =
    if role == "prefill"
    then record s {
      healthy_prefill = settled answer instance s.prefill_instances s.healthy_prefill;
    }
    else if role == "decode"
    then record s { healthy_decode = settled answer instance s.decode_instances s.healthy_decode }
    else record s {
      healthy_aggregated = settled answer instance s.aggregated_instances s.healthy_aggregated;
    }

-- _notify_model_discovered: the state, and the models that the callback is called with.
unfoldable pub notify_model_discovered : String → NodeDiscovery → NodeDiscovery × List String
notify_model_discovered model s =
    if contains s.notified_models model
    then (s, [])
    else (record s { notified_models = model ∷ s.notified_models }, model ∷ [])

-- `_probe_models` up to its request: the registry, whose reading may move a circuit breaker, the
-- state, the calls of the callback, and whether the request is made. An error other than the
-- KeyError that it catches goes on to `_probe_node`, and there is none.
unfoldable pub probe_models :
    ℕ
    → String
    → InstanceRegistry
    → NodeDiscovery
    → InstanceRegistry × NodeDiscovery × List String × Bool
unfolding notify_model_discovered
probe_models now instance registry s = elim (Registry.get_instance_info now instance registry) [
  | raise e ↦ (registry, s, [], false)
  | ok (registry', info) ↦
      if info.model == ""
      then (registry', s, [], true)
      else (let (s', calls) = notify_model_discovered info.model s in (registry', s', calls, false))
]

-- The answer to GET /v1/models: an exception or a body of another shape, a status other than 200,
-- or the id of the first model, which may be empty; none where the data has no model.
pub data Listing : Type 0 where
  failed : Listing
  refused : Listing
  listed : Option String → Listing

-- The rest of `_probe_models` once its answer has come. The KeyError of `update_model` is caught.
unfoldable pub models_listed :
    String
    → Listing
    → InstanceRegistry
    → NodeDiscovery
    → InstanceRegistry × NodeDiscovery × List String
unfolding notify_model_discovered
models_listed instance failed registry s = (registry, s, [])
models_listed instance refused registry s = (registry, s, [])
models_listed instance (listed none) registry s = (registry, s, [])
models_listed instance (listed (some name)) registry s =
    if name == "" then (registry, s, []) else elim (Registry.update_model instance name registry) [
      | raise e ↦ (registry, s, [])
      | ok registry' ↦ (let (s', calls) = notify_model_discovered name s in (registry', s', calls))
    ]
