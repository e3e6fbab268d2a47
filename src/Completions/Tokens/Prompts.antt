-- ===== src/Completions/Tokens/Prompts.antt =====
-- xpyd/utils.py: the token length of every form of prompt that OpenAI's interface has.
use micro_pdproxy.Base.{
  ap, ℕ, suc, ◌+◌, ◌≡◌, refl, String, true, List, [], ◌∷◌, map, length, Result, ok, arith,
}
use micro_pdproxy.Base.Int.{pos}
use micro_pdproxy.Json.{Json, null, int, text, items, to_items, list, is_int, is_text}
use micro_pdproxy.Completions.Tokens.{
  all, is_token_list, sum_counts, sum_lengths, get_total_token_length,
}

-- A prompt: nothing, a text, texts, tokens, or sequences of tokens.
pub data Prompt : Type 0 where
  missing : Prompt
  one_text : String → Prompt
  texts : List String → Prompt
  tokens : List ℕ → Prompt
  sequences : List (List ℕ) → Prompt

abbrev pub ints : List ℕ → List Json
ints [] = []
ints (n ∷ ns) = int (pos n) ∷ ints ns

abbrev pub encode : Prompt → Json
encode missing = null
encode (one_text s) = text s
encode (texts ss) = list (map text ss)
encode (tokens ns) = list (ints ns)
encode (sequences nss) = list (map (λ ns. list (ints ns)) nss)

abbrev pub sum_of : List (List ℕ) → ℕ
sum_of [] = 0
sum_of (ns ∷ nss) = length ns + sum_of nss

module _ (size : String → ℕ) where
  abbrev pub sum_sizes : List String → ℕ
  sum_sizes [] = 0
  sum_sizes (s ∷ ss) = size s + sum_sizes ss

  abbrev pub prompt_length : Prompt → ℕ
  prompt_length missing = 0
  prompt_length (one_text s) = size s
  prompt_length (texts ss) = sum_sizes ss
  prompt_length (tokens ns) = length ns
  prompt_length (sequences nss) = sum_of nss

items-to_items : (xs : List Json) → items (to_items xs) ≡ xs
items-to_items [] = refl
items-to_items (x ∷ xs) = ap (λ ys. x ∷ ys) (items-to_items xs)

ints-all : (ns : List ℕ) → all is_int (ints ns) ≡ true
ints-all [] = refl
ints-all (n ∷ ns) = ints-all ns

length-ints : (ns : List ℕ) → length (ints ns) ≡ length ns
length-ints [] = refl
length-ints (n ∷ ns) = ap suc (length-ints ns)

texts_all : (ss : List String) → all is_text (map text ss) ≡ true
texts_all [] = refl
texts_all (s ∷ ss) = texts_all ss

sequences_all : (nss : List (List ℕ)) → all is_token_list (map (λ ns. list (ints ns)) nss) ≡ true
sequences_all [] = refl
sequences_all (ns ∷ nss) = ground (arith, items-to_items (ints ns), ints-all ns, sequences_all nss)

sum_lengths-sequences :
    (nss : List (List ℕ)) → sum_lengths (map (λ ns. list (ints ns)) nss) ≡ sum_of nss
sum_lengths-sequences [] = refl
sum_lengths-sequences (ns ∷ nss) =
    rw (items-to_items (ints ns)) (omega (arith, length-ints ns, sum_lengths-sequences nss))

module _ (count : Json → Result ℕ) (size : String → ℕ)
    (counted : (s : String) → count (text s) ≡ ok (size s)) where
  sum_counts-texts : (ss : List String) → sum_counts count (map text ss) ≡ ok (sum_sizes size ss)
  unfolding sum_counts
  sum_counts-texts [] = refl
  sum_counts-texts (s ∷ ss) = rw (counted s, sum_counts-texts ss) refl

  -- The tokens of a prompt in any of the forms that OpenAI's interface has are those of its texts, or
  -- the numbers of the tokens that it lists: for no prompt none, for one text those of the text, for
  -- a list of texts those of all its texts, and for tokens or sequences of tokens their number. It
  -- never raises and never falls back to the made-up length. The assumption is that the tokenizer
  -- takes every text.
  pub get_total_token_length-encode :
      (p : Prompt) → get_total_token_length count (encode p) ≡ ok (prompt_length size p)
  unfolding get_total_token_length
  get_total_token_length-encode missing = refl
  get_total_token_length-encode (one_text s) = counted s
  get_total_token_length-encode (texts []) = refl
  get_total_token_length-encode (texts (s ∷ ss)) =
      rw (items-to_items (map text ss), texts_all ss) (sum_counts-texts (s ∷ ss))
  get_total_token_length-encode (tokens []) = refl
  get_total_token_length-encode (tokens (n ∷ ns)) =
      rw (items-to_items (ints ns), ints-all ns) (ap (λ k. ok (suc k)) (length-ints ns))
  get_total_token_length-encode (sequences []) = refl
  get_total_token_length-encode (sequences (ns ∷ nss)) =
      rw
        (
          items-to_items (map (λ ks. list (ints ks)) nss),
          items-to_items (ints ns),
          ints-all ns,
          sequences_all nss,
        )
        (ap ok (omega (arith, length-ints ns, sum_lengths-sequences nss)))
