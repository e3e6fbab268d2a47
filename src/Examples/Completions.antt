-- ===== src/Examples/Completions.antt =====
-- Concrete requests and answers (xpyd/routes/completions.py and xpyd/utils.py).
use micro_pdproxy.Base.{◌≡◌, refl, true, [], ◌∷◌, ok, if◌then◌else◌, Distinct, string_discrete}
use micro_pdproxy.Base.Dict
use micro_pdproxy.Base.Dict.{Dict}
use micro_pdproxy.Base.Int.{pos, ◌+ℤ◌, ◌-ℤ◌, ltb_ℤ}
use micro_pdproxy.Json.{Json, int}
use micro_pdproxy.Completions.Tokens.{get_total_token_length}
use micro_pdproxy.Completions.Tokens.Prompts.{
  sequences, encode, prompt_length, get_total_token_length-encode,
}
use micro_pdproxy.Completions.Requests.{nixl, build_kv_prepare_request}
use micro_pdproxy.Completions.Requests.Keys.{kv_field, build_kv_prepare_request_lem}
use micro_pdproxy.Completions.Shapes.{count, merge_prefill_token_usage}
use micro_pdproxy.Completions.Shapes.Usage.{merge_prefill_token_usage_lem}

-- Every text has one token.
get_total_token_length-encode_example :
    get_total_token_length (λ x. ok 1) (encode (sequences ((1 ∷ (2 ∷ [])) ∷ ((3 ∷ []) ∷ []))))
    ≡ ok (prompt_length (λ s. 1) (sequences ((1 ∷ (2 ∷ [])) ∷ ((3 ∷ []) ∷ []))))
get_total_token_length-encode_example =
    get_total_token_length-encode (λ x. ok 1) (λ s. 1) (λ s. refl)
      (sequences ((1 ∷ (2 ∷ [])) ∷ ((3 ∷ []) ∷ [])))

abbrev request : Dict Json
request = ("max_tokens", int (pos 7)) ∷ ("stream", int (pos 1)) ∷ []

request-Distinct : Distinct (Dict.keys request)
unfolding string_discrete
request-Distinct = (refl, (refl, tt))

build_kv_prepare_request_lem_example :
    Dict.get (build_kv_prepare_request request true nixl) "stream"
    ≡ kv_field true nixl "stream" (Dict.get request "stream")
build_kv_prepare_request_lem_example =
    build_kv_prepare_request_lem "stream" request true nixl request-Distinct

abbrev usage : Dict Json
usage = ("prompt_tokens", int (pos 4)) ∷ ("completion_tokens", int (pos 2)) ∷ []

prompt_count : count usage "prompt_tokens" ≡ ok (pos 4)
unfolding Dict.get string_discrete
prompt_count = refl

completion_count : count usage "completion_tokens" ≡ ok (pos 2)
unfolding Dict.get string_discrete
completion_count = refl

merge_prefill_token_usage_lem_example :
    (u : Dict Json) × (merge_prefill_token_usage usage ≡ ok u)
    × (count u "prompt_tokens" ≡ ok (if ltb_ℤ (pos 0) (pos 4) then pos 4 -ℤ pos 1 else pos 4))
    × (count u "completion_tokens" ≡ ok (pos 2 +ℤ pos 1))
    × (count u "total_tokens"
        ≡ ok ((if ltb_ℤ (pos 0) (pos 4) then pos 4 -ℤ pos 1 else pos 4) +ℤ (pos 2 +ℤ pos 1)))
merge_prefill_token_usage_lem_example =
    merge_prefill_token_usage_lem usage (pos 4) (pos 2) prompt_count completion_count
