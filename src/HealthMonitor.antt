-- ===== src/HealthMonitor.antt =====
-- xpyd/health_monitor.py: `HealthMonitor`, its nodes and what a probe's answer does to the registry,
-- whose `mark_healthy` and `mark_unhealthy` are the callbacks (xpyd/proxy.py).
pub mod Probes
use micro_pdproxy.Base.{
  ℕ, String, Bool, true, false, List, [], ◌∷◌, ◌++◌, contains, eqb, if◌then◌else◌, ◌==◌, Result,
  or_unchanged,
}
use micro_pdproxy.Registry
use micro_pdproxy.Registry.{InstanceRegistry}

pub record HealthMonitor : Type 0 where
  pub nodes : List String

unfoldable pub add_node : String → HealthMonitor → HealthMonitor
add_node address m =
    if contains m.nodes address then m else record m { nodes = m.nodes ++ (address ∷ []) }

-- list.remove on a list that has the item
abbrev pub remove_first : String → List String → List String
remove_first a [] = []
remove_first a (x ∷ xs) = if x == a then xs else x ∷ remove_first a xs

unfoldable pub remove_node : String → HealthMonitor → HealthMonitor
remove_node address m =
    if contains m.nodes address then record m { nodes = remove_first address m.nodes } else m

-- The answer to GET /health: a status, or an exception.
pub data Answer : Type 0 where
  status : ℕ → Answer
  unreachable : Answer

-- `_probe_node` once its answer has come. The KeyError of a removed node is caught.
unfoldable pub probe_node : ℕ → String → Answer → InstanceRegistry → InstanceRegistry
probe_node now addr (status code) registry =
    if eqb code 200
    then or_unchanged registry (Registry.mark_healthy now addr registry)
    else or_unchanged registry (Registry.mark_unhealthy now addr registry)
probe_node now addr unreachable registry =
    or_unchanged registry (Registry.mark_unhealthy now addr registry)
