-- ===== src/Completions/Requests/Keys.antt =====
-- xpyd/routes/completions.py: each field of a request that is built, from the same field of the
-- client's request.
use micro_pdproxy.Base.{
  ap, ◌∙◌, ℕ, ◌≡◌, refl, String, Bool, true, false, ◌&&◌, Option, none, some, List, [], ◌∷◌, ◌++◌,
  if◌then◌else◌, ◌==◌, contains, Distinct, arith, Bool-cases, inl, inr, map,
}
use micro_pdproxy.Base.Dict
use micro_pdproxy.Base.Dict.{Dict, get-set, get-delete, set-Distinct, delete-Distinct}
use micro_pdproxy.Base.Int.{ℤ, pos, ltb_ℤ, ◌-ℤ◌}
use micro_pdproxy.Json.{Json, boolean, int, dict, null, delete_all}
use micro_pdproxy.Completions.Requests.{
  Mode, direct, nixl, zmq, prepare_for, remote_decode, build_kv_prepare_request,
  chat_only_request_fields, numbers, build_zmq_decode_request, at_least_one, decode_chat,
  decode_prompt, list,
}

-- The fields that the mode "nixl" changes.
abbrev pub nixl_field : Mode → String → Option Json → Option Json
nixl_field direct k old = old
nixl_field zmq k old = old
nixl_field nixl k old =
    if "kv_transfer_params" == k
    then some (
        dict (
          ("do_remote_decode", boolean true)
          ∷ ("do_remote_prefill", boolean false)
          ∷ ("remote_engine_id", null)
          ∷ ("remote_block_ids", null)
          ∷ ("remote_host", null)
          ∷ ("remote_port", null)
          ∷ []))
    else if "stream_options" == k
    then none
    else if "stream" == k
    then some (boolean false)
    else old

-- The field `k` of the request to the prefill instance, from that of the client's request.
abbrev pub kv_field : Bool → Mode → String → Option Json → Option Json
kv_field is_chat mode k old = nixl_field mode k (
    if is_chat && ("max_completion_tokens" == k)
    then some (int (pos 1))
    else if "max_tokens" == k
    then some (int (pos 1))
    else old)

module _ (k : String) where
  nixl_lem :
      (mode : Mode) (r : Dict Json)
      → Distinct (Dict.keys r)
      → Dict.get (prepare_for mode r) k ≡ nixl_field mode k (Dict.get r k)
  nixl_lem direct r once = refl
  nixl_lem zmq r once = refl
  nixl_lem nixl r once =
      let r1 = Dict.set r "stream" (boolean false) in
      let r2 = Dict.delete r1 "stream_options" in
      ground (
        arith,
        get-set r2 "kv_transfer_params" k remote_decode,
        get-delete r1 "stream_options" k (set-Distinct r "stream" (boolean false) once),
        get-set r "stream" k (boolean false),
      )

  -- Every field of the request that `build_kv_prepare_request` builds is what the table says: one
  -- token is asked for, in both limits for a chat, the mode "nixl" switches streaming off and asks
  -- for a remote decode and no remote prefill, with no remote engine, blocks, host or port, and every
  -- other field is the client's.
  pub build_kv_prepare_request_lem :
      (request : Dict Json) (is_chat : Bool) (mode : Mode)
      → Distinct (Dict.keys request)
      → Dict.get (build_kv_prepare_request request is_chat mode) k
        ≡ kv_field is_chat mode k (Dict.get request k)
  unfolding build_kv_prepare_request
  build_kv_prepare_request_lem request false mode once =
      let r = Dict.set request "max_tokens" (int (pos 1)) in
      nixl_lem mode r (set-Distinct request "max_tokens" (int (pos 1)) once)
      ∙ ap (nixl_field mode k) (get-set request "max_tokens" k (int (pos 1)))
  build_kv_prepare_request_lem request true mode once =
      let r = Dict.set request "max_tokens" (int (pos 1)) in
      let r' = Dict.set r "max_completion_tokens" (int (pos 1)) in
      let d = set-Distinct request "max_tokens" (int (pos 1)) once in
      nixl_lem mode r' (set-Distinct r "max_completion_tokens" (int (pos 1)) d)
      ∙ ap (nixl_field mode k) (
          ground (
            arith,
            get-set r "max_completion_tokens" k (int (pos 1)),
            get-set request "max_tokens" k (int (pos 1)),
          ))

  get-delete_all :
      (ks : List String) (d : Dict Json)
      → Distinct (Dict.keys d)
      → (Dict.get (delete_all ks d) k ≡ (if contains ks k then none else Dict.get d k))
        × Distinct (Dict.keys (delete_all ks d))
  get-delete_all [] d once = (refl, once)
  get-delete_all (j ∷ ks) d once =
      let (rest, distinct) = get-delete_all ks (Dict.delete d j) (delete-Distinct d j once) in
      (rest ∙ ground (arith, get-delete d j k once), distinct)

-- What becomes of a field of a chat: the fields that only a chat has go, and the limit is set.
abbrev pub chat_field : ℤ → String → Bool → Option Json → Option Json
chat_field max_tokens k false old = old
chat_field max_tokens k true old =
    if ltb_ℤ (pos 0) max_tokens && ("max_tokens" == k)
    then some (int max_tokens)
    else if contains chat_only_request_fields k
    then none
    else old

-- The prompt, with the first token if the prefill instance gave it, which counts as generated.
abbrev pub prompt_field : List ℕ → Option Json → ℤ → String → Option Json → Option Json
prompt_field tokens none max_tokens k old = if "prompt" == k then some (numbers tokens) else old
prompt_field tokens (some first) max_tokens k old =
    if ltb_ℤ (pos 0) max_tokens && ("max_tokens" == k)
    then some (int (at_least_one (max_tokens -ℤ pos 1)))
    else if "prompt" == k
    then some (list (map (λ n. int (pos n)) tokens ++ (first ∷ [])))
    else old

-- The field `k` of the request to the decode instance.
abbrev pub decode_field : List ℕ → Option Json → ℤ → Bool → String → Option Json → Option Json
decode_field tokens first max_tokens is_chat k old =
    if "kv_transfer_params" == k
    then none
    else prompt_field tokens first max_tokens k (chat_field max_tokens k is_chat old)

module _ (k : String) (max_tokens : ℤ) where
  decode_chat_lem :
      (r : Dict Json)
      → Distinct (Dict.keys r)
      → (Dict.get (decode_chat max_tokens r) k ≡ chat_field max_tokens k true (Dict.get r k))
        × Distinct (Dict.keys (decode_chat max_tokens r))
  decode_chat_lem r once =
      let (found, distinct) = get-delete_all k chat_only_request_fields r once in
      let r' = delete_all chat_only_request_fields r in
      elim (Bool-cases (ltb_ℤ (pos 0) max_tokens)) [
        | inl limited ↦ (
          rw (limited) (
              get-set r' "max_tokens" k (int max_tokens)
              ∙ ap (λ v. if "max_tokens" == k then some (int max_tokens) else v) found),
          rw (limited) (set-Distinct r' "max_tokens" (int max_tokens) distinct),
        )
        | inr free ↦ (rw (free) found, rw (free) distinct)
      ]

  decode_prompt_lem :
      (tokens : List ℕ) (first : Option Json) (r : Dict Json)
      → Distinct (Dict.keys r)
      → (Dict.get (decode_prompt tokens first max_tokens r) k
          ≡ prompt_field tokens first max_tokens k (Dict.get r k))
        × Distinct (Dict.keys (decode_prompt tokens first max_tokens r))
  decode_prompt_lem tokens none r once =
      (get-set r "prompt" k (numbers tokens), set-Distinct r "prompt" (numbers tokens) once)
  decode_prompt_lem tokens (some t) r once =
      let prompt = list (map (λ n. int (pos n)) tokens ++ (t ∷ [])) in
      let r1 = Dict.set r "prompt" prompt in
      let limit : Json = int (at_least_one (max_tokens -ℤ pos 1)) in
      let d1 = set-Distinct r "prompt" prompt once in
      elim (Bool-cases (ltb_ℤ (pos 0) max_tokens)) [
        | inl limited ↦ (
          rw (limited) (
              get-set r1 "max_tokens" k limit
              ∙ ap (λ v. if "max_tokens" == k then some limit else v)
                  (get-set r "prompt" k prompt)),
          rw (limited) (set-Distinct r1 "max_tokens" limit d1),
        )
        | inr free ↦ (rw (free) (get-set r "prompt" k prompt), rw (free) d1)
      ]

-- Every field of the request that `build_zmq_decode_request` builds is what the table says: the
-- prompt is the transferred tokens and the first token, if there is one, which is taken off a
-- positive limit that stays at least one; the fields of a chat and the transfer's parameters are
-- gone; every other field is the client's.
pub build_zmq_decode_request_lem :
    (request : Dict Json) (tokens : List ℕ) (first : Option Json) (max_tokens : ℤ) (is_chat : Bool)
    (k : String)
    → Distinct (Dict.keys request)
    → Dict.get (build_zmq_decode_request request tokens first max_tokens is_chat) k
      ≡ decode_field tokens first max_tokens is_chat k (Dict.get request k)
unfolding build_zmq_decode_request
build_zmq_decode_request_lem request tokens first max_tokens false k once =
    let (found, distinct) = decode_prompt_lem k max_tokens tokens first request once in
    get-delete (decode_prompt tokens first max_tokens request) "kv_transfer_params" k distinct
    ∙ ap (λ v. if "kv_transfer_params" == k then none else v) found
build_zmq_decode_request_lem request tokens first max_tokens true k once =
    let (chat, d) = decode_chat_lem k max_tokens request once in
    let r = decode_chat max_tokens request in
    let (found, distinct) = decode_prompt_lem k max_tokens tokens first r d in
    get-delete (decode_prompt tokens first max_tokens r) "kv_transfer_params" k distinct
    ∙ ap (λ v. if "kv_transfer_params" == k then none else v)
        (found ∙ ap (prompt_field tokens first max_tokens k) chat)
