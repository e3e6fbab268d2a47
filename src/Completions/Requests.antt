-- ===== src/Completions/Requests.antt =====
-- xpyd/routes/completions.py: the functions that check a request and build those for the prefill and
-- the decode instance. A request is a Python dictionary without repeated keys.
pub mod Keys
use micro_pdproxy.Base.{
  ℕ, String, Bool, true, false, not, ◌&&◌, Option, none, some, List, [], ◌∷◌, ◌++◌, map,
  if◌then◌else◌, ◌==◌, contains, Result, ok, raise, value_error, type_error, attribute_error, ◌>>=◌,
  get_or_else,
}
use micro_pdproxy.Base.Dict
use micro_pdproxy.Base.Dict.{Dict}
use micro_pdproxy.Base.Int.{ℤ, pos, negsuc, ◌-ℤ◌, ltb_ℤ}
use micro_pdproxy.Json.{
  Json, null, boolean, int, text, array, object, items, dict, list, is_array, is_text, truthy,
  get_default, delete_all, as_dict,
}
use micro_pdproxy.Errors.{JsonResponse, error_response, invalid_request}

-- validate_completion_request; the field is present in the second test.
unfoldable pub validate_completion_request : Dict Json → Bool → Option JsonResponse
validate_completion_request request true = elim (Dict.get request "messages") [
  | none ↦ some (error_response "Missing required field: messages" invalid_request 400)
  | some messages ↦
      if is_array messages
      then none
      else some (error_response "Field messages must be a list" invalid_request 400)
]
validate_completion_request request false =
    if Dict.has request "prompt"
    then none
    else some (error_response "Missing required field: prompt" invalid_request 400)

-- The modes of `disaggregated_mode`.
pub data Mode : Type 0 where
  direct nixl zmq : Mode

abbrev pub remote_decode : Json
remote_decode = dict (
    ("do_remote_decode", boolean true)
    ∷ ("do_remote_prefill", boolean false)
    ∷ ("remote_engine_id", null)
    ∷ ("remote_block_ids", null)
    ∷ ("remote_host", null)
    ∷ ("remote_port", null)
    ∷ [])

-- What the mode "nixl" adds.
abbrev pub prepare_for : Mode → Dict Json → Dict Json
prepare_for nixl r =
    Dict.set (Dict.delete (Dict.set r "stream" (boolean false)) "stream_options")
      "kv_transfer_params" remote_decode
prepare_for direct r = r
prepare_for zmq r = r

unfoldable pub build_kv_prepare_request : Dict Json → Bool → Mode → Dict Json
build_kv_prepare_request request is_chat mode =
    let r = Dict.set request "max_tokens" (int (pos 1)) in
    prepare_for mode (if is_chat then Dict.set r "max_completion_tokens" (int (pos 1)) else r)

-- _CHAT_ONLY_REQUEST_FIELDS
abbrev pub chat_only_request_fields : List String
chat_only_request_fields =
    "messages" ∷ "max_completion_tokens" ∷ "tools" ∷ "tool_choice" ∷ "parallel_tool_calls"
    ∷ "chat_template" ∷ "chat_template_kwargs" ∷ "add_generation_prompt" ∷ "continue_final_message"
    ∷ []

-- ZmqReceiverConfig, of xpyd/config.py, as far as requests are built from it.
pub record Receiver : Type 0 where
  pub host : String
  pub init_ports : List ℕ
  pub alloc_ports : List ℕ

-- A list of numbers as JSON.
abbrev pub numbers : List ℕ → Json
numbers ns = list (map (λ n. int (pos n)) ns)

abbrev pub transfer_params : String → Receiver → Bool → Json
transfer_params request_id receiver from_prefill =
    let spec : String × Json = (
      "disagg_spec",
      dict (
          ("req_id", text request_id)
          ∷ ("receiver_host", text receiver.host)
          ∷ ("receiver_init_port", numbers receiver.init_ports)
          ∷ ("receiver_alloc_port", numbers receiver.alloc_ports)
          ∷ []),
    ) in
    dict (if from_prefill then spec ∷ ("ret_first_tok", boolean true) ∷ [] else spec ∷ [])

-- `from_prefill` is `first_token_source == "prefill"`.
unfoldable pub build_zmq_prepare_request :
    Dict Json → List ℕ → String → Receiver → Bool → Bool → Dict Json
build_zmq_prepare_request request prompt_tokens request_id receiver from_prefill is_chat =
    let r = if is_chat then delete_all chat_only_request_fields request else request in
    let r1 = Dict.set r "prompt" (numbers prompt_tokens) in
    let r2 = Dict.set r1 "max_tokens" (int (pos 1)) in
    let r3 = Dict.delete (Dict.set r2 "stream" (boolean false)) "stream_options" in
    Dict.set r3 "kv_transfer_params" (transfer_params request_id receiver from_prefill)

-- max(1, n)
abbrev pub at_least_one : ℤ → ℤ
at_least_one n = if ltb_ℤ n (pos 1) then pos 1 else n

-- The chat part of `build_zmq_decode_request`.
abbrev pub decode_chat : ℤ → Dict Json → Dict Json
decode_chat max_tokens request =
    let r = delete_all chat_only_request_fields request in
    if ltb_ℤ (pos 0) max_tokens then Dict.set r "max_tokens" (int max_tokens) else r

-- The part that depends on the first token, which is appended whatever its type.
abbrev pub decode_prompt : List ℕ → Option Json → ℤ → Dict Json → Dict Json
decode_prompt prompt_tokens none max_tokens r = Dict.set r "prompt" (numbers prompt_tokens)
decode_prompt prompt_tokens (some first_token) max_tokens r =
    let r1 =
      Dict.set r "prompt" (list (map (λ n. int (pos n)) prompt_tokens ++ (first_token ∷ []))) in
    if ltb_ℤ (pos 0) max_tokens
    then Dict.set r1 "max_tokens" (int (at_least_one (max_tokens -ℤ pos 1)))
    else r1

unfoldable pub build_zmq_decode_request : Dict Json → List ℕ → Option Json → ℤ → Bool → Dict Json
build_zmq_decode_request request prompt_tokens first_token max_tokens is_chat =
    Dict.delete
      (decode_prompt prompt_tokens first_token max_tokens
        (if is_chat then decode_chat max_tokens request else request))
      "kv_transfer_params"
