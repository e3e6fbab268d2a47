-- ===== src/Examples/Members.antt =====
-- Instances that join and leave a proxy (xpyd/proxy.py).
use micro_pdproxy.Base.{
  ◌≡◌, refl, false, none, some, [], ◌∷◌, ok, contains, string_discrete, Distinct,
}
use micro_pdproxy.Proxy.{Proxy, init}
use micro_pdproxy.Proxy.Policies.{load_balanced}
use micro_pdproxy.Proxy.Members.{add_instance, drain_and_remove_instance, at_monitor}
use micro_pdproxy.Proxy.Members.View.{view}
use micro_pdproxy.Proxy.Members.Restored.{Shares, Steady}
use micro_pdproxy.Proxy.Members.Entered.{Outcome, add_instance-Outcome}
use micro_pdproxy.Proxy.Members.Lists.{listed_for, lists}
use micro_pdproxy.Scheduler.LoadBalanced as LoadBalanced
use micro_pdproxy.Examples.Server.{still, proxy, registered}
use micro_pdproxy.Registry as Registry
use micro_pdproxy.CircuitBreaker as CircuitBreaker
use micro_pdproxy.Base.Dict

unlisted :
    (contains proxy.prefill_instances "x" ≡ false) × (contains proxy.decode_instances "x" ≡ false)
unfolding init string_discrete
unlisted = (refl, refl)

proxy-Shares : Shares (view proxy)
unfolding init LoadBalanced.init
proxy-Shares = (
  record { utils_length = refl; bs_length = refl; model_length = refl },
  record { utils_length = refl; bs_length = refl; model_length = refl },
  refl,
  refl,
)

scheduler :
    proxy.scheduling_policy
    ≡ load_balanced (LoadBalanced.init ("p" ∷ []) (100 ∷ []) ("d" ∷ []) (100 ∷ []))
unfolding init
scheduler = refl

proxy-Steady : Steady (view proxy)
unfolding init string_discrete
proxy-Steady = ((refl, tt), (refl, tt), proxy-Shares)

one_model : Distinct (Dict.keys proxy.aggregated_instances)
unfolding init
one_model = (refl, tt)

unlisted_n : contains (listed_for "n" (lists proxy)) "x" ≡ false
unfolding init string_discrete Dict.get
unlisted_n = refl

-- The monitor raises, and the new aggregated instance is taken back.
add_instance-Outcome_example :
    Outcome "aggregated" "x" "n" proxy
      (add_instance still "aggregated" "x" (some ("n", 200)) (some at_monitor) proxy)
add_instance-Outcome_example =
    add_instance-Outcome still "aggregated" "x" (some ("n", 200)) (some at_monitor) proxy
      (LoadBalanced.init ("p" ∷ []) (100 ∷ []) ("d" ∷ []) (100 ∷ [])) scheduler proxy-Steady
      one_model (λ r e missing. (unlisted.0, unlisted.1, unlisted_n))

abbrev quiet : Proxy → Proxy
quiet p = p

-- An aggregated instance joins its model's list.
grows :
    (add_instance still "aggregated" "x" (some ("n", 200)) none proxy).0.aggregated_instances
    ≡ ("n", "g" ∷ "x" ∷ []) ∷ []
unfolding add_instance init string_discrete LoadBalanced.init Registry.get_instance_info
    Registry.add registered Registry.mark_healthy Dict.has Dict.get Dict.set Dict.delete
    CircuitBreaker.new CircuitBreaker.current_state
grows = refl

-- The instance joins when nothing is raised, and another leaves.
joins :
    (add_instance still "prefill" "x" (some ("m", 200)) none proxy).0.prefill_instances
    ≡ "p" ∷ "x" ∷ []
unfolding add_instance init string_discrete LoadBalanced.init Registry.get_instance_info
    Registry.add registered Registry.mark_healthy Registry.remove Registry.begin_draining
    Registry.get_active_requests Dict.has Dict.get Dict.set Dict.delete CircuitBreaker.new
    CircuitBreaker.current_state LoadBalanced.index_from
joins = refl

leaves : (drain_and_remove_instance still "prefill" "p" (quiet ∷ []) proxy).1 ≡ ok tt
unfolding drain_and_remove_instance init string_discrete LoadBalanced.init
    Registry.get_instance_info Registry.add registered Registry.mark_healthy Registry.remove
    Registry.begin_draining Registry.get_active_requests Dict.has Dict.get Dict.set Dict.delete
    CircuitBreaker.new CircuitBreaker.current_state LoadBalanced.index_from
leaves = refl
