-- ===== src/Handlers/Transfer/Safe.antt =====
-- xpyd/routes/completions.py: making the two requests cancels the task only at the listener.
use micro_pdproxy.Base.{
  String, ◌≡◌, refl, Bool, true, false, not, Option, none, some, if◌then◌else◌, Result, ok, raise,
  if-intro, or_raise, ◌>>=◌, Error, key_error, http_exception, cancelled_error, arith, if-elim,
}
use micro_pdproxy.Base.Dict
use micro_pdproxy.Base.Dict.{Dict}
use micro_pdproxy.Base.Int.{ℤ}
use micro_pdproxy.Json.{Json, as_dict, boolean, text, array}
use micro_pdproxy.Completions.Requests.{
  Mode, direct, nixl, zmq, build_zmq_decode_request, build_zmq_prepare_request,
}
use micro_pdproxy.Handlers.Transfer.{
  discarding, arrived, Waiting, notified, timed_out, wait_cancelled, is_waited, is_undisturbed,
  is_cancelled, ZmqState, prefill_request, decode_request, nixl_request, first_token, token_of,
  item, truthy, int, get_default, null, object, fields,
}

abbrev pub Safe {ℓ} : {A : Type ℓ} → Result A → Type 0
Safe (ok a) = Unit
Safe (raise e) = is_cancelled e ≡ false

Safe-bind :
    {A B : Type 0} (m : Result A) (f : A → Result B)
    → Safe m
    → ((a : A) → Safe (f a))
    → Safe (m >>= f)
Safe-bind (ok a) f h k = k a
Safe-bind (raise e) f h k = h

or_raise-Safe :
    {A : Type 0} (e : Error) (o : Option A) → is_cancelled e ≡ false → Safe (or_raise e o)
or_raise-Safe e none h = h
or_raise-Safe e (some a) h = tt

as_dict-Safe : (x : Json) → Safe (as_dict x)
as_dict-Safe null = refl
as_dict-Safe (boolean b) = refl
as_dict-Safe (int n) = refl
as_dict-Safe (text s) = refl
as_dict-Safe (array xs) = refl
as_dict-Safe (object fs) = tt

item-Safe : (key : String) (x : Json) → Safe (item key x)
item-Safe key null = refl
item-Safe key (boolean b) = refl
item-Safe key (int n) = refl
item-Safe key (text s) = refl
item-Safe key (array xs) = refl
item-Safe key (object fs) = or_raise-Safe (http_exception 502) (Dict.get (fields fs) key) refl

first_token-Safe :
    (from_prefill : Bool) (value : Option Json) → Safe (first_token from_prefill value)
unfolding first_token
first_token-Safe false value = tt
first_token-Safe true none = refl
first_token-Safe true (some output) =
    Safe-bind (item "kv_transfer_params" output)
      (λ params. item "first_tok" params >>= λ token. ok (token_of token))
      (item-Safe "kv_transfer_params" output)
      (λ params.
        Safe-bind (item "first_tok" params) (λ token. ok (token_of token))
          (item-Safe "first_tok" params) (λ token. tt))

nixl_request-Safe : (value : Option Json) (request : Dict Json) → Safe (nixl_request value request)
unfolding nixl_request
nixl_request-Safe none request = refl
nixl_request-Safe (some output) request =
    Safe-bind (as_dict output)
      (λ answer.
        if truthy (get_default answer "kv_transfer_params" null)
        then ok
            (Dict.set request "kv_transfer_params" (get_default answer "kv_transfer_params" null))
        else raise (http_exception 502))
      (as_dict-Safe output)
      (λ answer. if-intro Safe (truthy (get_default answer "kv_transfer_params" null)) tt refl)

discarding-Safe :
    {A : Type 0} (cancelled : Bool) (m : Result A)
    → cancelled ≡ false
    → Safe m
    → Safe (discarding cancelled m)
discarding-Safe cancelled (ok a) h s = tt
discarding-Safe cancelled (raise e) h s = rw h s

arrived-Safe : (waiting : Waiting) → is_waited waiting ≡ true → Safe (arrived waiting)
arrived-Safe notified h = tt
arrived-Safe timed_out h = refl
arrived-Safe wait_cancelled h = absurd (ground (arith, h))

pub prefill_request-Safe :
    (mode : Mode) (z : ZmqState) (decode : String) (request : Dict Json) (is_chat : Bool)
    → is_undisturbed mode z ≡ true
    → Safe (prefill_request mode z decode request is_chat)
unfolding prefill_request
prefill_request-Safe direct z decode request is_chat h = tt
prefill_request-Safe nixl z decode request is_chat h = tt
prefill_request-Safe zmq z decode request is_chat h = if-intro Safe (not z.ready) refl (
    Safe-bind (or_raise key_error (Dict.get z.receivers decode))
      (λ receiver.
        if z.register_cancelled
        then raise cancelled_error
        else ok (
            build_zmq_prepare_request request z.prompt_tokens z.request_id receiver z.from_prefill
              is_chat))
      (or_raise-Safe key_error (Dict.get z.receivers decode) refl)
      (λ receiver.
        if-elim Safe z.register_cancelled (λ yes. absurd (ground (arith, h, yes))) (λ no. tt)))

pub decode_request-Safe :
    (mode : Mode) (z : ZmqState) (value : Option Json) (request : Dict Json) (max_tokens : ℤ)
    (is_chat : Bool)
    → is_undisturbed mode z ≡ true
    → Safe (decode_request mode z value request max_tokens is_chat)
unfolding decode_request
decode_request-Safe direct z value request max_tokens is_chat h = tt
decode_request-Safe nixl z value request max_tokens is_chat h = nixl_request-Safe value request
decode_request-Safe zmq z value request max_tokens is_chat h =
    Safe-bind (discarding z.discard_cancelled (first_token z.from_prefill value))
      (λ token. arrived z.waiting >>= λ done.
        ok (build_zmq_decode_request request z.prompt_tokens token max_tokens is_chat))
      (discarding-Safe z.discard_cancelled (first_token z.from_prefill value) (ground (arith, h))
        (first_token-Safe z.from_prefill value))
      (λ token.
        Safe-bind (arrived z.waiting)
          (λ done. ok (build_zmq_decode_request request z.prompt_tokens token max_tokens is_chat))
          (arrived-Safe z.waiting (ground (arith, h))) (λ done. tt))
