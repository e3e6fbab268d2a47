-- ===== src/Handlers/Aggregated.antt =====
-- xpyd/routes/completions.py: `_handle_aggregated_completion`. What the instance does is an argument:
-- its whole answer to a request that is not streamed, or how its stream ends. The metrics and the
-- log are left out.
pub mod Counts
use micro_pdproxy.Base.{
  ℕ, zero, suc, ◌+◌, ◌-◌, ◌*◌, ◌/◌, ◌%◌, ◌≤◌, ◌<◌, String, ◌≡◌, refl, sym, ap, ◌∙◌, ◌≢◌, ◌↔◌, ◌⊎◌,
  inl, inr, Bool, true, false, not, ◌&&◌, ◌||◌, Option, none, some, List, [], ◌∷◌, ◌++◌, map, arith,
  if◌then◌else◌, ◌==◌, Result, ok, raise, ltb, leb, eqb, length, is_empty, get_elem?, contains,
  Distinct, Option-cases, Result-cases, Bool-cases, if-intro, get_or_else, or_raise, runtime_error,
  value_error, cancelled_error,
}
use micro_pdproxy.Base.Action.{Action, return, fail, lift, resume, recover, finally, ◌>>=◌, ◌>>◌}
use Prim.Native.String
use micro_pdproxy.Json.{Json}
use micro_pdproxy.Errors.{JsonResponse, error_response, invalid_request, proxy_error}
use micro_pdproxy.Registry
use micro_pdproxy.Proxy.{Proxy, Demand, with_registry}
use micro_pdproxy.Proxy.Policies.{World}
use micro_pdproxy.Proxy.Aggregated.{schedule_aggregated, schedule_aggregated_completion}
use micro_pdproxy.Handlers.Upstream.{
  Python, Answer, status_code, answered, http_error, undecodable, other_error, cancelled,
}
use micro_pdproxy.Registry.{InstanceRegistry}

-- The instance's outcome for the circuit breaker.
abbrev pub report : World → String → Bool → Action Proxy Unit
report w instance true = with_registry (Registry.record_success (w.clock instance) instance)
report w instance false =
    with_registry (Registry.record_failure (w.clock instance) (w.clock instance) instance)

-- Both `except` clauses: the request is counted off, the failure is recorded.
abbrev pub failed : World → String → String → ℕ → Action Proxy JsonResponse
failed w instance message code = do
  schedule_aggregated_completion instance
  report w instance false
  return (error_response message proxy_error code)

-- The `try` block behind the parsed answer.
abbrev pub respond : World → Python → String → Json → Action Proxy JsonResponse
respond w py instance body = do
  code ← lift (status_code py body)
  schedule_aggregated_completion instance
  report w instance (ltb code 400)
  if py.renders body
      then return (record { content = body; status_code = code })
      else fail value_error

-- The part of the handler for a request that is not streamed.
unfoldable pub non_streaming : World → Python → String → Answer → Action Proxy JsonResponse
unfolding schedule_aggregated_completion
non_streaming w py instance (answered body) p =
    recover (respond w py instance body p) (λ e. failed w instance "Internal proxy error" 500)
non_streaming w py instance undecodable p = failed w instance "Internal proxy error" 500 p
non_streaming w py instance (http_error code detail) p = failed w instance detail code p
non_streaming w py instance other_error p = failed w instance "Internal proxy error" 500 p
non_streaming w py instance cancelled p = (p, raise cancelled_error)

-- How the client's reading of a stream ends: at its end, by an exception of the upstream, by the
-- cancellation of the task, or by the closing of the generator. A stream that the client never asks
-- for does not start.
pub data Reading : Type 0 where
  finished broken disconnected closed never_started : Reading

-- The generator `wrapped`.
unfoldable pub wrapped : World → String → Reading → Action Proxy Unit
unfolding schedule_aggregated_completion
wrapped w instance finished p =
    (schedule_aggregated_completion instance >> report w instance true) p
wrapped w instance closed p = (schedule_aggregated_completion instance >> report w instance true) p
wrapped w instance disconnected p = schedule_aggregated_completion instance p
wrapped w instance broken p =
    finally ((report w instance false >> fail runtime_error) p)
      (schedule_aggregated_completion instance)
wrapped w instance never_started p = (p, ok tt)

-- What the client gets.
pub data Response : Type 0 where
  json : JsonResponse → Response
  stream : Response

-- No instance: 404 for a model that no instance serves, else 503.
abbrev pub unavailable : String → Option InstanceRegistry → JsonResponse
unavailable model none =
    error_response "No available instance can handle the request" proxy_error 503
unavailable model (some r) =
    if not (model == "") && not (contains (Registry.get_registered_models r) model)
    then error_response (String.◌++◌ "The model '" (String.◌++◌ model "' does not exist"))
        invalid_request 404
    else error_response "No available instance can handle the request" proxy_error 503

-- What the instance does with the request, whether it is streamed or not.
pub data Upstream : Type 0 where
  whole : Answer → Upstream
  streamed : Reading → Upstream

abbrev pub forward : World → Python → String → Upstream → Action Proxy Response
forward w py instance (whole answer) p =
    resume (non_streaming w py instance answer p) (λ response. return (json response))
forward w py instance (streamed reading) p =
    let (p', done) = wrapped w instance reading p in (p', ok stream)

abbrev pub serve : World → Python → String → Upstream → Option String → Action Proxy Response
serve w py model upstream none p = (p, ok (json (unavailable model p.registry)))
serve w py model upstream (some instance) p = forward w py instance upstream p

-- The handler, together with the reading of the stream that it returns.
unfoldable pub handle_aggregated_completion :
    World → World → Python → Demand → Upstream → Action Proxy Response
unfolding non_streaming wrapped
handle_aggregated_completion w later py d upstream =
    schedule_aggregated w d >>= serve later py d.model upstream

-- Whether the upstream gets to an end that the handler sees, and the handler to its own.
abbrev pub starts : Reading → Bool
starts finished = true
starts broken = true
starts disconnected = true
starts closed = true
starts never_started = false

abbrev pub ends : Python → Upstream → Bool
ends py (whole (answered body)) = py.renders body
ends py (whole undecodable) = true
ends py (whole (http_error code detail)) = true
ends py (whole other_error) = true
ends py (whole cancelled) = false
ends py (streamed reading) = starts reading
