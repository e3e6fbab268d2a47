-- ===== src/Proxy.antt =====
-- xpyd/proxy.py: `Proxy`, the state that the request handlers share: which instances there are, the
-- tokenizers and the policies, and what happens to them when a request is scheduled and when it
-- ends. The registry, the policies and the list of instances that the least-loaded scheduler shares
-- with the proxy are those of their own modules.
pub mod Policies
pub mod Bookings
pub mod Releases
pub mod RoundTrip
pub mod Chosen
pub mod Tokenizers
pub mod Aggregated
pub mod Members
use micro_pdproxy.Base.{
  ap, ℕ, ◌+◌, ◌%◌, String, Bool, true, false, not, ◌&&◌, ◌||◌, Option, none, some, List, [], ◌∷◌,
  ◌++◌, is_empty, contains, if◌then◌else◌, ◌==◌, Error, Result, ok, raise, value_error, or_raise,
  get_or_else,
}
use micro_pdproxy.Base.Action.{Action, return, fail, lift, resume, ◌>>=◌, ◌>>◌}
use micro_pdproxy.Base.Dict
use micro_pdproxy.Base.Dict.{Dict}
use micro_pdproxy.Registry
use micro_pdproxy.Registry.{InstanceRegistry}
use micro_pdproxy.Scheduler.ConsistentHash.{Context}
use micro_pdproxy.Discovery.{NodeDiscovery}
use micro_pdproxy.HealthMonitor.{HealthMonitor}
use micro_pdproxy.Completions.Tokens.{Tokenizer}
use micro_pdproxy.Proxy.Policies.{World, Policy, round_robin, choose, complete}

pub record Proxy : Type 0 where
  pub prefill_instances : List String
  pub decode_instances : List String
  pub prefill_cycler : List String
  pub decode_cycler : List String
  pub model : String
  pub scheduling_policy : Policy
  pub registry : Option InstanceRegistry
  pub aggregated_instances : Dict (List String)
  pub model_schedulers : Dict String
  pub tokenizer_path : Option String
  pub tokenizers : Dict Tokenizer
  pub round_robin_models : List String
  pub aggregated_rr_counters : Dict ℕ
  pub aggregated_policies : Dict Policy
  pub tokenizer : Option Tokenizer
  pub health_monitor : Option HealthMonitor
  pub discovery : Option NodeDiscovery

-- __init__, of what the server passes to it
unfoldable pub init :
    List String
    → List String
    → String
    → Policy
    → Option InstanceRegistry
    → Dict (List String)
    → Dict String
    → Option String
    → Proxy
init prefill decode model policy registry aggregated schedulers path = record {
  prefill_instances = prefill;
  decode_instances = decode;
  prefill_cycler = prefill;
  decode_cycler = decode;
  model = model;
  scheduling_policy = policy;
  registry = registry;
  aggregated_instances = aggregated;
  model_schedulers = schedulers;
  tokenizer_path = path;
  tokenizers = [];
  round_robin_models = [];
  aggregated_rr_counters = [];
  aggregated_policies = [];
  tokenizer = none;
  health_monitor = none;
  discovery = none;
}

-- What `ensure_tokenizer` gets from outside: the directory of a model below the root, `none` where
-- it would lie outside of it or is no directory, and the tokenizer at a source, `none` where
-- `AutoTokenizer.from_pretrained` raises.
pub record Sources : Type 0 where
  pub directory : String → String → Option String
  pub from_pretrained : String → Bool → Option Tokenizer

-- The source of a model's tokenizer, and whether it is local.
abbrev pub source_of : Sources → Option String → String → Result (String × Bool)
source_of s none model = ok (model, false)
source_of s (some root) model =
    if root == ""
    then ok (model, false)
    else elim (s.directory root model) [ none ↦ raise value_error | some path ↦ ok (path, true) ]

-- The tokenizer was loaded.
abbrev keep_tokenizer : String → Tokenizer → Action Proxy Bool
keep_tokenizer model t p = (
  record p {
    tokenizers = Dict.set p.tokenizers model t;
    tokenizer = some (get_or_else p.tokenizer t);
  },
  ok true,
)

-- `_round_robin_models.add(model)`, where the tokenizer was to be downloaded
abbrev fall_back : Bool → String → Action Proxy Bool
fall_back true model p = (p, raise value_error)
fall_back false model p = (record p { round_robin_models = model ∷ p.round_robin_models }, ok false)

abbrev pub settle_tokenizer : Bool → String → Option Tokenizer → Action Proxy Bool
settle_tokenizer local_only model none = fall_back local_only model
settle_tokenizer local_only model (some t) = keep_tokenizer model t

abbrev pub load_tokenizer : Sources → String → String × Bool → Action Proxy Bool
load_tokenizer s model (source, local_only) =
    settle_tokenizer local_only model (s.from_pretrained source local_only)

unfoldable pub ensure_tokenizer : Sources → String → Action Proxy Bool
ensure_tokenizer s model p =
    if model == "" || Dict.has p.tokenizers model
    then (p, ok (not (model == "")))
    else if contains p.round_robin_models model
    then (p, ok false)
    else resume (p, source_of s p.tokenizer_path model) (load_tokenizer s model)

unfoldable pub get_tokenizer : String → Proxy → Option Tokenizer
get_tokenizer model p = if model == "" then p.tokenizer else Dict.get p.tokenizers model

unfoldable pub uses_round_robin_fallback : String → Proxy → Bool
uses_round_robin_fallback model p = contains p.round_robin_models model

abbrev pub role_of : Bool → String
role_of is_prompt = if is_prompt then "prefill" else "decode"

-- What a policy asks the registry before it chooses.
unfoldable pub ask_registry :
    (String → ℕ)
    → String
    → String
    → Option InstanceRegistry
    → Option InstanceRegistry × Option (List String)
ask_registry clock role model none = (none, none)
ask_registry clock role model (some r) =
    let (r', available) = Registry.get_available_instances clock role model r in
    (some r', some available)

-- self.registry.increment_active_requests(selected), where something was selected
unfoldable pub count_request : Option String → Action Proxy (Option String)
count_request none p = (p, ok none)
count_request (some selected) p = elim p.registry [
  | none ↦ (p, ok (some selected))
  | some r ↦ elim (Registry.increment_active_requests selected r) [
    | raise e ↦ (p, raise e)
    | ok r' ↦ (record p { registry = some r' }, ok (some selected))
  ]
]

-- The request that is scheduled, as the handlers pass it on.
pub record Demand : Type 0 where
  pub model : String
  pub request_len : ℕ
  pub max_tokens : ℕ
  pub context : Context
  pub prompt : Option String

-- The policy's choice, and what it leaves of itself and of the cycler that it drew from.
abbrev chosen_by : Bool → Bool → Policy × List String × Option String → Action Proxy (Option String)
chosen_by fallback is_prompt (policy, cycler, selected) p = (
  record p {
    scheduling_policy = if fallback then p.scheduling_policy else policy;
    prefill_cycler = if is_prompt then cycler else p.prefill_cycler;
    decode_cycler = if is_prompt then p.decode_cycler else cycler;
  },
  ok selected,
)

unfoldable pub policy_schedule : World → Bool → Demand → Action Proxy (Option String)
unfolding uses_round_robin_fallback ask_registry
policy_schedule w is_prompt d p =
    let fallback = uses_round_robin_fallback d.model p in
    let (registry, available) = ask_registry w.clock (role_of is_prompt) d.model p.registry in
    resume
      (
        record p { registry = registry },
        choose w registry available is_prompt d.request_len d.max_tokens d.context d.prompt
            (if is_prompt then p.prefill_cycler else p.decode_cycler)
            (if fallback then round_robin else p.scheduling_policy),
      )
      (chosen_by fallback is_prompt)

unfoldable pub schedule : World → Bool → Demand → Action Proxy (Option String)
unfolding policy_schedule count_request
schedule w is_prompt d = policy_schedule w is_prompt d >>= count_request

-- `[instance for instance in (prefill, decode) if instance]`
abbrev pub truthy : Option String → List String
truthy none = []
truthy (some a) = if a == "" then [] else a ∷ []

abbrev pub named : Option String → Option String → List String
named prefill decode = truthy prefill ++ truthy decode

-- A method of the registry, where there is one.
unfoldable pub with_registry : (InstanceRegistry → Result InstanceRegistry) → Action Proxy Unit
with_registry f p = elim p.registry [
  | none ↦ (p, ok tt)
  | some r ↦ elim (f r) [
    | raise e ↦ (p, raise e)
    | ok r' ↦ (record p { registry = some r' }, ok tt)
  ]
]

abbrev pub release_counts : List String → Action Proxy Unit
release_counts [] = return tt
release_counts (a ∷ as') =
    with_registry (Registry.decrement_active_requests a) >> release_counts as'

-- The model of an instance, as `get_instance_info` gives it.
unfoldable pub info_model : World → String → Action Proxy String
info_model w a p = elim p.registry [
  | none ↦ (p, ok "")
  | some r ↦ elim (Registry.get_instance_info (w.clock a) a r) [
    | raise e ↦ (p, raise e)
    | ok (r', info) ↦ (record p { registry = some r' }, ok info.model)
  ]
]

-- all(uses_round_robin_fallback(...) for instance in instances): the first that does not ends it
abbrev pub all_fall_back : World → List String → Action Proxy Bool
all_fall_back w [] = return true
all_fall_back w (a ∷ as') = do
  model ← info_model w a
  p ← (λ p. (p, ok p))
  if uses_round_robin_fallback model p then all_fall_back w as' else return false

abbrev policy_completion : Option String → Option String → ℕ → Action Proxy Unit
policy_completion prefill decode req_len p =
    let (policy, done) = complete prefill decode req_len p.scheduling_policy in
    (record p { scheduling_policy = policy }, done)

abbrev pub is_some {ℓ} : {A : Type ℓ} → Option A → Bool
is_some none = false
is_some (some a) = true

-- Whether the scheduler that booked the request is the round-robin fallback, which keeps no load.
abbrev booked_by_fallback : World → List String → Action Proxy Bool
booked_by_fallback w instances p =
    if is_some p.registry && not (is_empty instances)
    then all_fall_back w instances p
    else (p, ok false)

unfoldable pub schedule_completion : World → Option String → Option String → ℕ → Action Proxy Unit
unfolding with_registry info_model uses_round_robin_fallback
schedule_completion w prefill decode req_len = do
  release_counts (named prefill decode)
  fallback ← booked_by_fallback w (named prefill decode)
  if fallback then return tt else policy_completion prefill decode req_len

-- Proxy.on_done
abbrev pub on_done : World → Option String → Option String → ℕ → Action Proxy Unit
on_done w prefill decode req_len = schedule_completion w prefill decode req_len

abbrev pub record_successes : World → List String → Action Proxy Unit
record_successes w [] = return tt
record_successes w (a ∷ as') =
    with_registry (Registry.record_success (w.clock a) a) >> record_successes w as'

-- What is raised is logged and raised again.
unfoldable pub exception_handler : World → Option String → Option String → ℕ → Action Proxy Unit
unfolding schedule_completion with_registry
exception_handler w prefill decode req_len p =
    if is_empty (named prefill decode)
    then (p, ok tt)
    else resume (on_done w prefill decode req_len p)
        (λ u. record_successes w (named prefill decode))

abbrev pub record_failures : World → List String → Action Proxy Unit
record_failures w [] = return tt
record_failures w (a ∷ as') =
    with_registry (Registry.record_failure (w.clock a) (w.clock a) a) >> record_failures w as'

-- Proxy._record_failure; the breaker's two readings of the clock are one here.
unfoldable pub record_failure : World → Option String → Option String → Action Proxy Unit
unfolding with_registry
record_failure w prefill decode = record_failures w (named prefill decode)
