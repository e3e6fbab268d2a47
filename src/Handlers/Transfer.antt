-- ===== src/Handlers/Transfer.antt =====
-- xpyd/routes/completions.py: the requests that `handle_completion` sends to the two instances, in
-- each mode, and the exceptions on the way to them.
pub mod Safe
use micro_pdproxy.Base.{
  ◌>>=◌, ℕ, zero, suc, ◌+◌, ◌-◌, ◌*◌, ◌/◌, ◌%◌, ◌≤◌, ◌<◌, String, ◌≡◌, refl, sym, ap, ◌∙◌, ◌≢◌, ◌↔◌,
  ◌⊎◌, inl, inr, Bool, true, false, not, ◌&&◌, ◌||◌, Option, none, some, List, [], ◌∷◌, ◌++◌, map,
  arith, if◌then◌else◌, ◌==◌, Result, ok, raise, ltb, leb, eqb, length, is_empty, get_elem?,
  contains, Distinct, Option-cases, Result-cases, Bool-cases, if-intro, get_or_else, or_raise,
  http_exception, type_error, key_error, Error, cancelled_error,
}
use micro_pdproxy.Base.Dict
use micro_pdproxy.Base.Dict.{Dict}
use micro_pdproxy.Base.Int.{ℤ, pos}
use micro_pdproxy.Json.{Json, object, int, fields, null, as_dict, get_default, truthy}
use micro_pdproxy.Completions.Requests.{
  Mode, direct, nixl, zmq, Receiver, build_kv_prepare_request, build_zmq_prepare_request,
  build_zmq_decode_request,
}

-- How the wait for the notifications ends.
pub data Waiting : Type 0 where
  notified timed_out wait_cancelled : Waiting

-- What the mode "zmq" needs: whether there are a listener and a configuration, the receivers,
-- whether the first token is the prefill instance's, the identity of the request, its tokens, how the
-- wait for the notifications ends, and whether the task is cancelled while it registers the request
-- with the listener or discards it there.
pub record ZmqState : Type 0 where
  pub ready : Bool
  pub receivers : Dict Receiver
  pub from_prefill : Bool
  pub request_id : String
  pub prompt_tokens : List ℕ
  pub waiting : Waiting
  pub register_cancelled : Bool
  pub discard_cancelled : Bool

-- The request for the prefill instance.
unfoldable pub prefill_request : Mode → ZmqState → String → Dict Json → Bool → Result (Dict Json)
prefill_request direct z decode_instance request is_chat =
    ok (build_kv_prepare_request request is_chat direct)
prefill_request nixl z decode_instance request is_chat =
    ok (build_kv_prepare_request request is_chat nixl)
prefill_request zmq z decode_instance request is_chat =
    if not z.ready then raise (http_exception 503) else (do
      receiver ← or_raise key_error (Dict.get z.receivers decode_instance)
      let prepared =
          build_zmq_prepare_request request z.prompt_tokens z.request_id receiver z.from_prefill
            is_chat
      if z.register_cancelled then raise cancelled_error else ok prepared)

-- The request for the decode instance in the mode "nixl", from the JSON value of the prefill
-- instance's body, if it is one.
unfoldable pub nixl_request : Option Json → Dict Json → Result (Dict Json)
nixl_request none request = raise (http_exception 502)
nixl_request (some output) request = do
  answer ← as_dict output
  let params = get_default answer "kv_transfer_params" null
  if truthy params
      then ok (Dict.set request "kv_transfer_params" params)
      else raise (http_exception 502)

-- x[key], where a KeyError or a TypeError is an answer without a first token
abbrev pub item : String → Json → Result Json
item key (object fs) = or_raise (http_exception 502) (Dict.get (fields fs) key)
item key x = raise (http_exception 502)

-- `None` is no first token; anything else is one.
abbrev pub token_of : Json → Option Json
token_of null = none
token_of x = some x

unfoldable pub first_token : Bool → Option Json → Result (Option Json)
first_token false value = ok none
first_token true none = raise (http_exception 502)
first_token true (some output) = do
  params ← item "kv_transfer_params" output
  token ← item "first_tok" params
  ok (token_of token)

-- An answer without a first token: the request is discarded at the listener first.
abbrev pub discarding {ℓ} : {A : Type ℓ} → Bool → Result A → Result A
discarding cancelled (ok a) = ok a
discarding cancelled (raise e) = raise (if cancelled then cancelled_error else e)

abbrev pub arrived : Waiting → Result {0} Unit
arrived notified = ok tt
arrived timed_out = raise (http_exception 504)
arrived wait_cancelled = raise cancelled_error

-- The request for the decode instance, from the prefill instance's body.
unfoldable pub decode_request :
    Mode → ZmqState → Option Json → Dict Json → ℤ → Bool → Result (Dict Json)
unfolding nixl_request first_token
decode_request direct z value request max_tokens is_chat = ok request
decode_request nixl z value request max_tokens is_chat = nixl_request value request
decode_request zmq z value request max_tokens is_chat = do
  token ← discarding z.discard_cancelled (first_token z.from_prefill value)
  done ← arrived z.waiting
  ok (build_zmq_decode_request request z.prompt_tokens token max_tokens is_chat)

-- The task is not cancelled at the listener.
abbrev pub is_waited : Waiting → Bool
is_waited notified = true
is_waited timed_out = true
is_waited wait_cancelled = false

abbrev pub is_undisturbed : Mode → ZmqState → Bool
is_undisturbed direct z = true
is_undisturbed nixl z = true
is_undisturbed zmq z = not z.register_cancelled && (not z.discard_cancelled && is_waited z.waiting)

-- An HTTPException of the prefill request in the mode "zmq": the discarding may be cancelled.
abbrev pub is_discard_cancelled : Mode → ZmqState → Bool
is_discard_cancelled direct z = false
is_discard_cancelled nixl z = false
is_discard_cancelled zmq z = z.discard_cancelled

-- Whether an exception is the cancellation of the task.
abbrev pub is_cancelled : Error → Bool
is_cancelled cancelled_error = true
is_cancelled e = false
