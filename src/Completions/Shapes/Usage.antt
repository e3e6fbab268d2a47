-- ===== src/Completions/Shapes/Usage.antt =====
-- xpyd/routes/completions.py: the corrected token usage, and the choices that a conversion keeps.
use micro_pdproxy.Base.{
  ap, ◌∙◌, ◌≡◌, refl, ℕ, suc, String, Bool, true, false, Option, some, List, [], ◌∷◌, if◌then◌else◌,
  ◌==◌, ok, arith, Bool-cases, Result-cases, inl, inr, length, get_or_else, string_discrete,
}
use micro_pdproxy.Base.Dict
use micro_pdproxy.Base.Dict.{Dict, get-set}
use micro_pdproxy.Base.Int.{ℤ, pos, ◌+ℤ◌, ◌-ℤ◌, ltb_ℤ}
use micro_pdproxy.Json.{Json, int, as_int, as_dict}
use micro_pdproxy.Completions.Shapes.{
  count, add_completion, merge_prefill_token_usage, Shape, convert_choices,
}

as_int_if :
    (b : Bool) (n : ℤ) (o : Option Json)
    → as_int (get_or_else (if b then some (int n) else o) (int (pos 0)))
      ≡ (if b then ok n else as_int (get_or_else o (int (pos 0))))
as_int_if true n o = refl
as_int_if false n o = refl

count-set :
    (d : Dict Json) (j k : String) (n : ℤ)
    → count (Dict.set d j (int n)) k ≡ (if j == k then ok n else count d k)
count-set d j k n =
    ap (λ o. as_int (get_or_else o (int (pos 0)))) (get-set d j k (int n))
    ∙ as_int_if (j == k) n (Dict.get d k)

count-set_same : (d : Dict Json) (k : String) (n : ℤ) → count (Dict.set d k (int n)) k ≡ ok n
count-set_same d k n = ground (arith, count-set d k k n)

count-set_other :
    (d : Dict Json) (j k : String) (n : ℤ)
    → (j == k) ≡ false
    → count (Dict.set d j (int n)) k ≡ count d k
count-set_other d j k n other = rw (other) at (count-set d j k n)

prompt_completion : ("prompt_tokens" == "completion_tokens") ≡ false
unfolding string_discrete
prompt_completion = refl

completion_prompt : ("completion_tokens" == "prompt_tokens") ≡ false
unfolding string_discrete
completion_prompt = refl

total_prompt : ("total_tokens" == "prompt_tokens") ≡ false
unfolding string_discrete
total_prompt = refl

total_completion : ("total_tokens" == "completion_tokens") ≡ false
unfolding string_discrete
total_completion = refl

-- The part behind the prompt's count, from a usage whose counts are known.
totalled :
    (u : Dict Json) (p c : ℤ)
    → count u "prompt_tokens" ≡ ok p
    → count u "completion_tokens" ≡ ok c
    → (v : Dict Json) × (add_completion u ≡ ok v)
      × (count v "prompt_tokens" ≡ ok p)
      × (count v "completion_tokens" ≡ ok (c +ℤ pos 1))
      × (count v "total_tokens" ≡ ok (p +ℤ (c +ℤ pos 1)))
unfolding add_completion
totalled u p c hp hc =
    let u2 = Dict.set u "completion_tokens" (int (c +ℤ pos 1)) in
    let n = p +ℤ (c +ℤ pos 1) in
    let prompt : count u2 "prompt_tokens" ≡ ok p =
      count-set_other u "completion_tokens" "prompt_tokens" (c +ℤ pos 1) completion_prompt ∙ hp in
    let completion : count u2 "completion_tokens" ≡ ok (c +ℤ pos 1) =
      count-set_same u "completion_tokens" (c +ℤ pos 1) in
    (
      Dict.set u2 "total_tokens" (int n),
      rw (hc, add_completion, prompt, completion) refl,
      count-set_other u2 "total_tokens" "prompt_tokens" n total_prompt ∙ prompt,
      count-set_other u2 "total_tokens" "completion_tokens" n total_completion ∙ completion,
      count-set_same u2 "total_tokens" n,
    )

-- For a usage whose counts are the numbers `p` and `c`, zero where they are missing: the prompt loses
-- one token, if it has any, the completion gains one, and the total is the sum of the two.
pub merge_prefill_token_usage_lem :
    (usage : Dict Json) (p c : ℤ)
    → count usage "prompt_tokens" ≡ ok p
    → count usage "completion_tokens" ≡ ok c
    → (u : Dict Json) × (merge_prefill_token_usage usage ≡ ok u)
      × (count u "prompt_tokens" ≡ ok (if ltb_ℤ (pos 0) p then p -ℤ pos 1 else p))
      × (count u "completion_tokens" ≡ ok (c +ℤ pos 1))
      × (count u "total_tokens" ≡ ok ((if ltb_ℤ (pos 0) p then p -ℤ pos 1 else p) +ℤ (c +ℤ pos 1)))
unfolding merge_prefill_token_usage
merge_prefill_token_usage_lem usage p c hp hc = elim (Bool-cases (ltb_ℤ (pos 0) p)) [
  | inl some_prompt ↦
      (let u = Dict.set usage "prompt_tokens" (int (p -ℤ pos 1)) in
        let (v, result, prompt, completion, total) =
          totalled u (p -ℤ pos 1) c (count-set_same usage "prompt_tokens" (p -ℤ pos 1)) (
            count-set_other usage "prompt_tokens" "completion_tokens" (p -ℤ pos 1) prompt_completion
            ∙ hc) in
        (
          v,
          rw (hp, merge_prefill_token_usage, some_prompt) result,
          rw (some_prompt) prompt,
          completion,
          rw (some_prompt) total,
        ))
  | inr no_prompt ↦
      (let (v, result, prompt, completion, total) = totalled usage p c hp hc in
        (
          v,
          rw (hp, merge_prefill_token_usage, no_prompt) result,
          rw (no_prompt) prompt,
          completion,
          rw (no_prompt) total,
        ))
]

-- A conversion that raises nothing keeps the number of the choices.
convert_choices-length :
    (shape : Shape) (index : ℕ) (choices converted : List Json)
    → convert_choices shape index choices ≡ ok converted
    → length converted ≡ length choices
unfolding convert_choices
convert_choices-length shape index [] converted h = ground arith
convert_choices-length shape index (c ∷ cs) converted h = elim (Result-cases (as_dict c)) [
  | inr (e, no_dict) ↦ absurd (ground (arith, no_dict))
  | inl (d, is_dict) ↦ elim (Result-cases (convert_choices shape (suc index) cs)) [
    | inr (e, failed) ↦ absurd (ground (arith, is_dict, failed))
    | inl (rest, done) ↦
        ground (arith, is_dict, done, convert_choices-length shape (suc index) cs rest done)
  ]
]
