-- ===== src/Completions/Tokens.antt =====
-- xpyd/utils.py and xpyd/routes/completions.py: how many tokens a prompt has, and what is read from a
-- request to schedule it. `count` is the number of the tokens that the tokenizer makes of a value.
pub mod Prompts
use Prim.Native.String
use micro_pdproxy.Base.{
  ℕ, zero, suc, ◌+◌, String, Bool, true, false, not, ◌&&◌, Option, none, some, List, [], ◌∷◌, ◌++◌,
  map, length, if◌then◌else◌, ◌==◌, Result, ok, raise, value_error, key_error, type_error,
  attribute_error, or_raise, ◌>>=◌, eqb,
}
use micro_pdproxy.Base.Dict
use micro_pdproxy.Base.Dict.{Dict}
use micro_pdproxy.Base.Int.{ℤ, pos, eqb_ℤ}
use micro_pdproxy.Json.{
  Json, null, boolean, int, text, array, object, items, fields, dict, list, is_int, is_text,
  is_array, is_object, truthy, get_default, as_dict,
}

abbrev pub all : (Json → Bool) → List Json → Bool
all test [] = true
all test (x ∷ xs) = test x && all test xs

abbrev pub is_token_list : Json → Bool
is_token_list (array xs) = all is_int (items xs)
is_token_list _ = false

-- sum(len(p) for p in prompt), of lists
abbrev pub sum_lengths : List Json → ℕ
sum_lengths [] = 0
sum_lengths (array xs ∷ ps) = length (items xs) + sum_lengths ps
sum_lengths (_ ∷ ps) = sum_lengths ps

module _ (count : Json → Result ℕ) where
  -- sum(len(tokenizer(p)["input_ids"]) for p in prompt)
  pub sum_counts : List Json → Result ℕ
  sum_counts [] = ok 0
  sum_counts (p ∷ ps) = do n ← count p; rest ← sum_counts ps; ok (n + rest)

  -- The loop over the parts of a multimodal prompt.
  pub sum_texts : List Json → Result ℕ
  sum_texts [] = ok 0
  sum_texts (object fs ∷ ps) = elim (Dict.get (fields fs) "text") [
    | none ↦ sum_texts ps
    | some t ↦ (count t >>= λ n. sum_texts ps >>= λ rest. ok (n + rest))
  ]
  sum_texts (_ ∷ ps) = sum_texts ps

  -- get_total_token_length on a list
  abbrev list_length : List Json → Result ℕ
  list_length [] = ok 0
  list_length (p ∷ ps) =
      if all is_int (p ∷ ps)
      then ok (length (p ∷ ps))
      else if all is_text (p ∷ ps)
      then sum_counts (p ∷ ps)
      else if all is_token_list (p ∷ ps)
      then ok (sum_lengths (p ∷ ps))
      else if all is_object (p ∷ ps)
      then sum_texts (p ∷ ps)
      else ok 100

  -- get_total_token_length of xpyd/utils.py; 100 is `fake_len`.
  unfoldable pub get_total_token_length : Json → Result ℕ
  unfolding sum_counts sum_texts
  get_total_token_length null = ok 0
  get_total_token_length (text s) = count (text s)
  get_total_token_length (array xs) = list_length (items xs)
  get_total_token_length (boolean b) = ok 100
  get_total_token_length (int n) = ok 100
  get_total_token_length (object fs) = ok 100

-- What the proxy uses of a tokenizer; `count` is len(tokenizer(value)["input_ids"]).
pub record Tokenizer : Type 0 where
  pub count : Json → Result ℕ
  pub encode : Json → Result (List Json)
  pub apply_chat_template : Json → Dict Json → Result Json

-- Proxy.get_total_token_length: no tokenizer for the model, no tokens.
unfoldable pub proxy_token_length : Option Tokenizer → Json → Result ℕ
unfolding get_total_token_length
proxy_token_length none prompt = ok 0
proxy_token_length (some tokenizer) prompt = get_total_token_length tokenizer.count prompt

-- value == 0
abbrev is_zero : Json → Bool
is_zero (int n) = eqb_ℤ n (pos 0)
is_zero (boolean b) = not b
is_zero _ = false

-- " ".join(parts), which raises for a part that is no text
abbrev pub join : List Json → Result String
join [] = ok ""
join (text s ∷ []) = ok s
join (text s ∷ (p ∷ ps)) = join (p ∷ ps) >>= λ rest. ok (String.◌++◌ s (String.◌++◌ " " rest))
join (_ ∷ ps) = raise type_error

module _ (token_length : Json → Result ℕ) where
  -- The loop over the parts of a message's content: the tokens and the texts.
  abbrev part_texts : List Json → Result (ℕ × List Json)
  part_texts [] = ok (0, [])
  part_texts (object fs ∷ ps) = elim (get_default (fields fs) "type" null) [
    | text t ↦
        if t == "text"
        then (do
          let value = get_default (fields fs) "text" (text "")
          n ← token_length value
          (rest, texts) ← part_texts ps
          ok (n + rest, value ∷ texts))
        else part_texts ps
    | _ ↦ part_texts ps
  ]
  part_texts (_ ∷ ps) = part_texts ps

  abbrev content_texts : Json → Result (ℕ × List Json)
  content_texts (text s) = token_length (text s) >>= λ n. ok (n, text s ∷ [])
  content_texts (array parts) = part_texts (items parts)
  content_texts _ = ok (0, [])

  -- The loop over the messages.
  unfoldable pub message_texts : List Json → Result (ℕ × List Json)
  message_texts [] = ok (0, [])
  message_texts (msg ∷ msgs) = do
    m ← as_dict msg
    (n, texts) ← content_texts (get_default m "content" null)
    (rest, more) ← message_texts msgs
    ok (n + rest, texts ++ more)

  -- `prompt if isinstance(prompt, str) else str(prompt)`
  abbrev text_of : (Json → String) → Json → String
  text_of repr (text s) = s
  text_of repr prompt = repr prompt

  -- extract_prompt_info: the length, the limit and the text of the prompt. `repr` is `str(prompt)`
  -- of a prompt that is no text. That "messages" is a list has been checked before.
  unfoldable pub extract_prompt_info :
      (Json → String) → Dict Json → Bool → Result (ℕ × Json × String)
  unfolding message_texts
  extract_prompt_info repr request true = do
    messages ← or_raise key_error (Dict.get request "messages")
    listed ← elim messages [ array xs ↦ ok (items xs) | _ ↦ raise type_error ]
    (total, texts) ← message_texts listed
    let limit = get_default request "max_completion_tokens" (int (pos 0))
    prompt_text ← join texts
    ok (
      total,
      (if is_zero limit then get_default request "max_tokens" (int (pos 0)) else limit),
      prompt_text,
    )
  extract_prompt_info repr request false = do
    let prompt = get_default request "prompt" null
    total ← token_length prompt
    ok (total, get_default request "max_tokens" (int (pos 0)), text_of repr prompt)

-- `d[key] = value` where the value is not None
abbrev set_unless_null : String → Json → Dict Json → Dict Json
set_unless_null key null d = d
set_unless_null key value d = Dict.set d key value

-- The arguments of the chat template.
unfoldable pub template_kwargs : Dict Json → Result (Dict Json)
template_kwargs request = do
  let given = get_default request "chat_template_kwargs" null
  base ← if truthy given then as_dict given else ok []
  let continue_final = get_default request "continue_final_message" (boolean false)
  let d1 : Dict Json = Dict.set base "tokenize" (boolean true)
  let d2 : Dict Json =
      Dict.set d1 "add_generation_prompt"
        (get_default request "add_generation_prompt" (boolean (not (truthy continue_final))))
  let d3 : Dict Json =
      (if Dict.has request "continue_final_message"
        then Dict.set d2 "continue_final_message" continue_final
        else d2)
  ok (
      set_unless_null "tools" (get_default request "tools" null)
        (set_unless_null "chat_template" (get_default request "chat_template" null) d3))

-- A batch of one sequence is that sequence.
abbrev pub unwrap : List Json → List Json
unwrap (array xs ∷ []) = items xs
unwrap xs = xs

-- The tokens in the template's output, which may be a mapping.
abbrev pub template_tokens : Json → Result (List Json)
template_tokens (array xs) = ok (unwrap (items xs))
template_tokens (object fs) = elim (get_default (fields fs) "input_ids" null) [
  | array xs ↦ ok (unwrap (items xs))
  | null ↦ raise value_error
  | _ ↦ raise type_error
]
template_tokens _ = raise type_error

-- The tokens of a prompt that is no conversation: a list is one of tokens already.
abbrev encode_prompt : Tokenizer → Json → Result (List Json)
encode_prompt tokenizer (array xs) = ok (items xs)
encode_prompt tokenizer prompt = tokenizer.encode prompt

-- tokenize_zmq_prompt; outputs of other types than those of JSON are left out.
unfoldable pub tokenize_zmq_prompt : Option Tokenizer → Dict Json → Bool → Result (List Json)
unfolding template_kwargs
tokenize_zmq_prompt none request is_chat = raise value_error
tokenize_zmq_prompt (some tokenizer) request false = do
  prompt ← or_raise key_error (Dict.get request "prompt")
  encode_prompt tokenizer prompt
tokenize_zmq_prompt (some tokenizer) request true = do
  kwargs ← template_kwargs request
  messages ← or_raise key_error (Dict.get request "messages")
  output ← tokenizer.apply_chat_template messages kwargs
  template_tokens output
