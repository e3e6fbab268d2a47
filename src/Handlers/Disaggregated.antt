-- ===== src/Handlers/Disaggregated.antt =====
-- xpyd/routes/completions.py: the part of `handle_completion` from the scheduling of a request on a
-- prefill and a decode instance to the end of its response. What the instances, the notifications
-- and the client do is an argument. So is whether the task is cancelled where it awaits
-- them. The metrics and the log are left out, and the listener is a module of its own.
pub mod Counts
pub mod Settled
use micro_pdproxy.Base.{
  ℕ, zero, suc, ◌+◌, ◌-◌, ◌*◌, ◌/◌, ◌%◌, ◌≤◌, ◌<◌, String, ◌≡◌, refl, sym, ap, ◌∙◌, ◌≢◌, ◌↔◌, ◌⊎◌,
  inl, inr, Bool, true, false, not, ◌&&◌, ◌||◌, Option, none, some, List, [], ◌∷◌, ◌++◌, map, arith,
  if◌then◌else◌, ◌==◌, Result, ok, raise, ltb, leb, eqb, length, is_empty, get_elem?, contains,
  Distinct, Option-cases, Result-cases, Bool-cases, if-intro, get_or_else, or_raise, runtime_error,
  cancelled_error, http_exception, IsSorted, Error, value_error,
}
use micro_pdproxy.Base.Action.{Action, return, fail, lift, resume, recover, finally, ◌>>=◌, ◌>>◌}
use micro_pdproxy.Base.Dict.{Dict}
use micro_pdproxy.Base.Int.{ℤ}
use micro_pdproxy.Json.{Json, dict, text}
use micro_pdproxy.Errors.{JsonResponse, error_response, invalid_request, proxy_error}
use micro_pdproxy.Registry
use micro_pdproxy.Reservation.{RequestReservation, reserve}
use micro_pdproxy.Reservation.Once.{Call, call, all}
use micro_pdproxy.Proxy as Server
use micro_pdproxy.Proxy.{Proxy, Demand, schedule}
use micro_pdproxy.Proxy.Policies.{World}
use micro_pdproxy.Completions.Requests.{Mode}
use micro_pdproxy.Handlers.Aggregated.{Response, json, stream, unavailable}
use micro_pdproxy.Handlers.Session.{Session, call_session, release_all_session, call_each, on_proxy}
use micro_pdproxy.Handlers.Transfer.{
  ZmqState, prefill_request, decode_request, is_cancelled, is_discard_cancelled,
}

-- What `forward_request` to the prefill instance gives: the JSON value of its body, if it is one, a
-- body that is no UTF-8, an HTTPException, or the task is cancelled.
pub data PrefillAnswer : Type 0 where
  answered : Option Json → PrefillAnswer
  undecodable : PrefillAnswer
  http_error : ℕ → PrefillAnswer
  cancelled : PrefillAnswer

-- How the client's reading of the final generator ends: at its end or by the closing of the
-- generator, by the cancellation of the task, by an HTTPException or by another exception. A stream
-- that the client never asks for does not start.
pub data Reading : Type 0 where
  over disconnected http_broken broken never_started : Reading

abbrev pub is_started : Reading → Bool
is_started over = true
is_started disconnected = true
is_started http_broken = true
is_started broken = true
is_started never_started = false

-- The final generator: its calls of the reservation, and the client's reading of it.
pub record Generator : Type 0 where
  pub calls : List Call
  pub reading : Reading

-- The request, as the handler read it.
pub record Job : Type 0 where
  pub mode : Mode
  pub zmq_state : ZmqState
  pub request : Dict Json
  pub is_chat : Bool
  pub max_tokens : ℤ
  pub demand : Demand

-- What follows the reading in `wrapped_generator`, before its `finally`.
abbrev pub ending : World → Option String → Option String → Reading → Action Session Unit
ending w prefill decode over = return tt
ending w prefill decode disconnected = return tt
ending w prefill decode broken = fail runtime_error
ending w prefill decode http_broken =
    release_all_session w
    >> (on_proxy (Server.record_failure w prefill decode) >> fail (http_exception 502))
ending w prefill decode never_started = return tt

unfoldable pub wrapped_generator :
    World → Option String → Option String → Generator → Action Session Unit
unfolding call_each
wrapped_generator w prefill decode g s =
    if is_started g.reading
    then finally ((call_each w g.calls >> ending w prefill decode g.reading) s)
        (release_all_session w)
    else (s, ok tt)

-- The `except HTTPException` clause around the prefill request.
abbrev pub prefill_failed : World → Option String → Option String → ℕ → Action Session Response
prefill_failed w prefill decode code =
    release_all_session w
    >> (on_proxy (Server.record_failure w prefill decode) >> fail (http_exception code))

-- The response is returned, whatever its reading raises.
abbrev pub respond_with : World → String → String → Generator → Action Session Response
respond_with w prefill decode g s =
    ((wrapped_generator w (some prefill) (some decode) g s).0, ok stream)

-- The prefill instance answers, or fails; the task is not cancelled.
abbrev pub is_answer : PrefillAnswer → Bool
is_answer (answered value) = true
is_answer undecodable = true
is_answer (http_error code) = true
is_answer cancelled = false

-- From the prefill instance's answer to the response, whose reading is run in its place.
unfoldable pub after_prefill :
    World → Job → String → String → Generator → PrefillAnswer → Action Session Response
unfolding wrapped_generator
after_prefill w j prefill decode g (http_error code) s =
    if is_discard_cancelled j.mode j.zmq_state
    then (s, raise cancelled_error)
    else prefill_failed w (some prefill) (some decode) code s
after_prefill w j prefill decode g undecodable s = (s, raise value_error)
after_prefill w j prefill decode g cancelled s = (s, raise cancelled_error)
after_prefill w j prefill decode g (answered value) s =
    resume (s, decode_request j.mode j.zmq_state value j.request j.max_tokens j.is_chat)
      (λ sent. respond_with w prefill decode g)

-- The outer `except` clauses; a CancelledError is no Exception and passes them.
abbrev pub internal_error : Response
internal_error = json (record {
  content = dict (
      ("error", dict (("message", text "Internal proxy error") ∷ ("type", text "proxy_error") ∷ []))
      ∷ []);
  status_code = 500;
})

abbrev pub outer_result : Error → Result Response
outer_result (http_exception code) = raise (http_exception code)
outer_result e = ok internal_error

abbrev pub outer : World → Error → Action Session Response
outer w e = if is_cancelled e then fail e else release_all_session w >> (λ s. (s, outer_result e))

-- The `try` block behind the reservation.
abbrev pub body :
    World
    → Job
    → Generator
    → PrefillAnswer
    → Option String
    → Option String
    → Action Session Response
body w j g answer (some prefill) (some decode) s =
    resume (s, prefill_request j.mode j.zmq_state decode j.request j.is_chat)
      (λ sent. after_prefill w j prefill decode g answer)
body w j g answer prefill decode s =
    resume (release_all_session w s)
      (λ u t. (t, ok (json (unavailable j.demand.model t.proxy.registry))))

abbrev pub reserved :
    World → Job → Generator → PrefillAnswer → Option String → Option String → Action Proxy Response
reserved w j g answer prefill decode p =
    let s : Session = record {
      proxy = p;
      reservation = reserve prefill decode j.demand.request_len;
    } in
    let (s', response) = recover (body w j g answer prefill decode s) (outer w) in
    (s'.proxy, response)

-- An exception of the scheduler is answered with 500.
abbrev pub or_internal_error :
    Proxy × Result (Option String)
    → (Option String → Action Proxy Response)
    → Proxy × Result Response
or_internal_error (p, raise e) f = (p, ok internal_error)
or_internal_error (p, ok o) f = f o p

-- The scheduling of the two instances: an exception before the reservation is answered with 500.
unfoldable pub handle_disaggregated :
    World → World → World → Job → Generator → PrefillAnswer → Action Proxy Response
unfolding after_prefill
handle_disaggregated w1 w2 w3 j g answer p =
    or_internal_error (schedule w1 true (record j.demand { max_tokens = 1 }) p) (λ prefill q.
      or_internal_error (schedule w2 false j.demand q)
        (λ decode. reserved w3 j g answer prefill decode))
