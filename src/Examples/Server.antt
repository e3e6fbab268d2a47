-- ===== src/Examples/Server.antt =====
-- Concrete requests to a proxy (xpyd/proxy.py and xpyd/routes/completions.py).
use micro_pdproxy.Base.{
  refl, ◌≡◌, ◌>>=◌, ℕ, Result, true, ◌∷◌, none, ◌≡◌, [], ok, raise, some, List, false, String,
  string_discrete, arith, contains, ◌+◌, ◌==◌, ◌-◌,
}
use micro_pdproxy.Base.Dict.{Dict}
use micro_pdproxy.Registry as Registry
use micro_pdproxy.CircuitBreaker as CircuitBreaker
use micro_pdproxy.Handlers.Upstream as Upstream
use micro_pdproxy.Handlers.Upstream.{status_code}
use micro_pdproxy.Base.Dict
use micro_pdproxy.Handlers.Disaggregated as Disaggregated
use micro_pdproxy.Reservation.Once as Once
use micro_pdproxy.Scheduler.PowerOfTwo.Choice.{Draws}
use micro_pdproxy.Proxy.Bookings.{active, booked, known_in, schedule-active}
use micro_pdproxy.Registry.{InstanceRegistry, get_active_requests}
use micro_pdproxy.Proxy.{
  Proxy, Demand, init, schedule, Sources, ensure_tokenizer, exception_handler,
}
use micro_pdproxy.Proxy.Policies.{World, Policy, load_balanced}
use micro_pdproxy.Scheduler.LoadBalanced as LoadBalanced
use micro_pdproxy.Handlers.Aggregated.{
  non_streaming, handle_aggregated_completion, streamed, finished,
}
use micro_pdproxy.Handlers.Upstream.{Python, status_code}
use micro_pdproxy.Handlers.Disaggregated.{Generator, Job, handle_disaggregated, answered}
use micro_pdproxy.Handlers.Disaggregated.Settled.{fine, handle_disaggregated-active}
use micro_pdproxy.Proxy.Aggregated.{schedule_aggregated, schedule_aggregated_load_balanced}
use micro_pdproxy.Proxy.Chosen.Available.{IsSound}
use micro_pdproxy.Proxy.Tokenizers.{Settled, ensure_tokenizer-Settled}
use micro_pdproxy.Proxy.Chosen.Schedule.{schedule-available}
use micro_pdproxy.Completions.Requests.{direct}
use micro_pdproxy.Proxy.Aggregated.Bookings.{schedule_aggregated-active}
use micro_pdproxy.Proxy.RoundTrip.{exception_handler-schedule}
use micro_pdproxy.Json.{dict}
use micro_pdproxy.Handlers.Transfer.{timed_out}
use micro_pdproxy.Base.Int.{pos}
use micro_pdproxy.Proxy.Aggregated.Least.{AllBusier, aggregated_least}
use micro_pdproxy.Handlers.Aggregated.Counts.{handle_aggregated_completion-active, unrendered_twice}

abbrev first_two : List String → String × String
first_two (x ∷ (y ∷ xs)) = (x, y)
first_two (x ∷ []) = (x, x)
first_two [] = ("", "")

first_two-Draws : Draws first_two
first_two-Draws x y xs = (ground arith, ground arith)

abbrev pub still : World
still = record {
  clock = λ a. 5;
  sample = first_two;
  vnode_hash = λ a i. i;
  key_hash = λ k. 0;
  cache_hash = λ a i. i;
  tokenize = λ s. s ∷ [];
  hash_of = λ ts. 0;
}

-- A registry with a healthy prefill, decode and aggregated instance.
unfoldable pub registered : Result InstanceRegistry
unfolding Registry.init Registry.add Registry.mark_healthy
registered = do
  r1 ← Registry.add "prefill" "p" "m" (Registry.init true 3 2 60 60)
  r2 ← Registry.add "decode" "d" "m" r1
  r3 ← Registry.add "aggregated" "g" "n" r2
  r4 ← Registry.mark_healthy 1 "p" r3
  r5 ← Registry.mark_healthy 1 "d" r4
  Registry.mark_healthy 1 "g" r5

abbrev pub from : Result InstanceRegistry → InstanceRegistry
from (ok r) = r
from (raise e) = Registry.init true 3 2 60 60

abbrev pub registry : InstanceRegistry
registry = from registered

abbrev pub policy : Policy
policy = load_balanced (LoadBalanced.init ("p" ∷ []) (100 ∷ []) ("d" ∷ []) (100 ∷ []))

abbrev pub proxy : Proxy
proxy = init ("p" ∷ []) ("d" ∷ []) "m" policy (some registry) (("n", "g" ∷ []) ∷ []) [] none

abbrev demand : Demand
demand = record {
  model = "m";
  request_len = 10;
  max_tokens = 20;
  context = record { header = none; session_id = none; user = none; client_ip = none };
  prompt = none;
}

named_p : ("p" == "") ≡ false
unfolding string_discrete
named_p = refl

named_d : ("d" == "") ≡ false
unfolding string_discrete
named_d = refl

named_m : ("m" == "") ≡ false
unfolding string_discrete
named_m = refl

has_registry : proxy.registry ≡ some registry
unfolding init
has_registry = refl

abbrev first : Demand
first = record demand { max_tokens = 1 }

prefill_chosen : (schedule still true first proxy).1 ≡ ok (some "p")
unfolding schedule init LoadBalanced.schedule LoadBalanced.init Registry.get_available_instances
    registered string_discrete Dict.has Dict.set Dict.get Registry.consider
    CircuitBreaker.current_state CircuitBreaker.new LoadBalanced.min_value LoadBalanced.first_at
    LoadBalanced.book Registry.increment_active_requests
prefill_chosen = refl

abbrev later : Proxy
later = (schedule still true first proxy).0

decode_chosen : (schedule still false demand later).1 ≡ ok (some "d")
unfolding schedule init LoadBalanced.schedule LoadBalanced.init Registry.get_available_instances
    registered string_discrete Dict.has Dict.set Dict.get Registry.consider
    CircuitBreaker.current_state CircuitBreaker.new LoadBalanced.min_value LoadBalanced.first_at
    LoadBalanced.book Registry.increment_active_requests
decode_chosen = refl

schedule-active_example :
    active "p" (schedule still true first proxy).0
    ≡ active "p" proxy + booked "p" (schedule still true first proxy).1
schedule-active_example = schedule-active still true first proxy registry has_registry "p"

policy-IsSound : IsSound proxy.scheduling_policy
unfolding init LoadBalanced.init LoadBalanced.new_pool
policy-IsSound = (
  record { utils_length = refl; bs_length = refl; model_length = refl },
  record { utils_length = refl; bs_length = refl; model_length = refl },
)

schedule-available_example :
    contains (Registry.get_available_instances still.clock "prefill" "m" registry).1 "p" ≡ true
schedule-available_example =
    schedule-available still true first proxy registry "p" first_two-Draws policy-IsSound
      has_registry prefill_chosen

exception_handler-schedule_example :
    active "p"
      (exception_handler still (some "p") (some "d") 10 (schedule still false demand later).0).0
    ≡ active "p" proxy
exception_handler-schedule_example =
    exception_handler-schedule still still still first demand proxy registry "p" "d" 10 "p"
      has_registry prefill_chosen decode_chosen named_p named_d

abbrev sources : Sources
sources = record { directory = λ root model. none; from_pretrained = λ source local_only. none }

no_tokenizer : (ensure_tokenizer sources "m" proxy).1 ≡ ok false
unfolding ensure_tokenizer init string_discrete Dict.has
no_tokenizer = refl

ensure_tokenizer-Settled_example : Settled "m" false (ensure_tokenizer sources "m" proxy).0
ensure_tokenizer-Settled_example =
    ensure_tokenizer-Settled sources "m" proxy false named_m no_tokenizer

abbrev aggregated_demand : Demand
aggregated_demand = record demand { model = "n" }

schedule_aggregated-active_example :
    active "g" (schedule_aggregated still aggregated_demand proxy).0
    ≡ active "g" proxy + booked "g" (schedule_aggregated still aggregated_demand proxy).1
schedule_aggregated-active_example =
    schedule_aggregated-active still aggregated_demand proxy registry "g" has_registry

aggregated_least_example :
    (b : String) × (schedule_aggregated_load_balanced (some registry) ("g" ∷ ("h" ∷ [])) ≡ ok b)
    × (contains ("g" ∷ ("h" ∷ [])) b ≡ true)
    × AllBusier registry (get_active_requests b registry) ("g" ∷ ("h" ∷ []))
aggregated_least_example = aggregated_least registry "g" ("h" ∷ [])

abbrev python : Python
python = record { occurs = λ needle s. false; renders = λ body. false }

handle_aggregated_completion-active_example :
    active "g"
      (handle_aggregated_completion still still python aggregated_demand
        (streamed finished)
        proxy).0
    ≡ active "g" proxy
handle_aggregated_completion-active_example =
    handle_aggregated_completion-active still still python aggregated_demand (streamed finished)
      proxy registry "g" has_registry refl

empty_status : status_code python (dict []) ≡ ok 200
unfolding status_code micro_pdproxy.Base.Dict.has
empty_status = refl

g_known : known_in "g" proxy.registry ≡ true
unfolding init registered string_discrete Dict.has Dict.set Dict.get CircuitBreaker.new
    Registry.new_record
g_known = refl

unrendered_twice_example :
    active "g" (non_streaming still python "g" (Upstream.answered (dict [])) proxy).0
    ≡ active "g" proxy - 1 - 1
unrendered_twice_example =
    unrendered_twice still python "g" proxy (dict []) 200 g_known refl empty_status

abbrev job : Job
job = record {
  mode = direct;
  zmq_state = record {
    ready = false;
    receivers = [];
    from_prefill = false;
    request_id = "";
    prompt_tokens = [];
    waiting = timed_out;
    register_cancelled = false;
    discard_cancelled = false;
  };
  request = [];
  is_chat = false;
  max_tokens = pos 20;
  demand = demand;
}

abbrev generator : Generator
generator = record {
  calls = Once.handle (some "p") none none ∷ [];
  reading = Disaggregated.disconnected;
}

prefill_fine : fine (schedule still true first proxy).1 ≡ true
unfolding schedule init LoadBalanced.schedule LoadBalanced.init Registry.get_available_instances
    registered string_discrete Dict.has Dict.set Dict.get Registry.consider
    CircuitBreaker.current_state CircuitBreaker.new LoadBalanced.min_value LoadBalanced.first_at
    LoadBalanced.book Registry.increment_active_requests
prefill_fine = refl

decode_fine : fine (schedule still false demand later).1 ≡ true
unfolding schedule init LoadBalanced.schedule LoadBalanced.init Registry.get_available_instances
    registered string_discrete Dict.has Dict.set Dict.get Registry.consider
    CircuitBreaker.current_state CircuitBreaker.new LoadBalanced.min_value LoadBalanced.first_at
    LoadBalanced.book Registry.increment_active_requests
decode_fine = refl

handle_disaggregated-active_example :
    active "p"
      (handle_disaggregated still still still job generator (Disaggregated.answered none) proxy).0
    ≡ active "p" proxy
handle_disaggregated-active_example =
    handle_disaggregated-active still still still job generator (Disaggregated.answered none) proxy
      registry "p" has_registry prefill_fine decode_fine refl refl refl
