-- ===== src/Completions/Shapes.antt =====
-- xpyd/routes/completions.py: responses of the completions endpoint turned into those of the chat
-- endpoint, and the correction of their token usage.
pub mod Usage
use micro_pdproxy.Base.{
  ℕ, zero, suc, String, Bool, true, false, Option, none, some, List, [], ◌∷◌, if◌then◌else◌, ◌==◌,
  Result, ok, raise, ◌>>=◌, type_error, attribute_error,
}
use micro_pdproxy.Base.Dict
use micro_pdproxy.Base.Dict.{Dict}
use micro_pdproxy.Base.Int.{ℤ, pos, ◌+ℤ◌, ◌-ℤ◌, ltb_ℤ}
use micro_pdproxy.Json.{
  Json, null, boolean, int, text, array, nil, object, end, field, items, dict, list, get_default,
  as_dict, as_int, update,
}

-- The name of a choice's content, "message" or "delta", and what it holds.
pub data Shape : Type 0 where
  message delta : Shape

abbrev content_of : Shape → Dict Json → String × Json
content_of message choice = (
  "message",
  dict (("role", text "assistant") ∷ ("content", get_default choice "text" (text "")) ∷ []),
)
content_of delta choice = ("delta", dict (("content", get_default choice "text" (text "")) ∷ []))

-- The comprehensions over `enumerate(choices)`, from an index on.
unfoldable pub convert_choices : Shape → ℕ → List Json → Result (List Json)
convert_choices shape index [] = ok []
convert_choices shape index (choice ∷ choices) = do
  c ← as_dict choice
  rest ← convert_choices shape (suc index) choices
  ok (
      dict (
        ("index", get_default c "index" (int (pos index)))
        ∷ content_of shape c
        ∷ ("logprobs", get_default c "logprobs" null)
        ∷ ("finish_reason", get_default c "finish_reason" null)
        ∷ [])
      ∷ rest)

-- Iteration over `output.get("choices", [])`. The keys of a dictionary and the characters of a text
-- are no dictionaries, so the first of them raises.
abbrev pub choices_of : Dict Json → Result (List Json)
choices_of output = elim (get_default output "choices" (array nil)) [
  | array choices ↦ ok (items choices)
  | object end ↦ ok []
  | object (field k v fs) ↦ raise attribute_error
  | text s ↦ if s == "" then ok [] else raise attribute_error
  | null ↦ raise type_error
  | boolean b ↦ raise type_error
  | int n ↦ raise type_error
]

-- _completion_to_chat
unfoldable pub completion_to_chat : Dict Json → Result (Dict Json)
unfolding convert_choices
completion_to_chat output = do
  choices ← choices_of output
  converted ← convert_choices message 0 choices
  ok (Dict.set (Dict.set output "object" (text "chat.completion")) "choices" (list converted))

-- _completion_chunk_to_chat; no metadata is the empty dictionary.
unfoldable pub completion_chunk_to_chat : Dict Json → Dict Json → Result (Dict Json)
unfolding convert_choices
completion_chunk_to_chat output response_metadata = do
  choices ← choices_of output
  converted ← convert_choices delta 0 choices
  ok (
      Dict.set (Dict.set (update output response_metadata) "object" (text "chat.completion.chunk"))
        "choices" (list converted))

-- usage.get(key, 0) as a number
abbrev pub count : Dict Json → String → Result ℤ
count usage key = as_int (get_default usage key (int (pos 0)))

-- The part of `_merge_prefill_token_usage` behind the prompt's count.
unfoldable pub add_completion : Dict Json → Result (Dict Json)
add_completion usage = do
  completion ← count usage "completion_tokens"
  let usage' : Dict Json = Dict.set usage "completion_tokens" (int (completion +ℤ pos 1))
  prompt' ← count usage' "prompt_tokens"
  completion' ← count usage' "completion_tokens"
  ok (Dict.set usage' "total_tokens" (int (prompt' +ℤ completion')))

-- _merge_prefill_token_usage
unfoldable pub merge_prefill_token_usage : Dict Json → Result (Dict Json)
merge_prefill_token_usage usage = do
  prompt ← count usage "prompt_tokens"
  add_completion (
      if ltb_ℤ (pos 0) prompt
      then Dict.set usage "prompt_tokens" (int (prompt -ℤ pos 1))
      else usage)
