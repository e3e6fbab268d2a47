-- ===== src/Proxy/Tokenizers.antt =====
-- xpyd/proxy.py: what `ensure_tokenizer` settles for a model.
use micro_pdproxy.Base.{
  String, ◌≡◌, refl, sym, Bool, true, false, not, ◌||◌, Option, none, some, List, [], ◌∷◌, arith,
  ◌==◌, Result, ok, raise, contains, get_or_else, if-elim, List, Option-cases, Bool-cases, inl, inr,
  ◌∙◌,
}
use micro_pdproxy.Base.Dict
use micro_pdproxy.Base.Action.{resume}
use micro_pdproxy.Completions.Tokens.{Tokenizer}
use micro_pdproxy.Proxy.{
  Proxy, Sources, ensure_tokenizer, get_tokenizer, uses_round_robin_fallback, is_some,
  load_tokenizer, settle_tokenizer, source_of,
}

-- Later calls of `ensure_tokenizer`, for any models.
abbrev pub Later : Type 0
Later = List (Sources × String)

unfoldable pub ensure_each : Later → Proxy → Proxy
ensure_each [] p = p
ensure_each ((s, model) ∷ later) p = ensure_each later (ensure_tokenizer s model p).0

-- Where a call for the model leaves it: with a tokenizer, or with none and scheduled in turn.
abbrev Kept : String → Bool → Option Tokenizer → Proxy → Type 0
Kept model b t p =
    (Dict.has p.tokenizers model ≡ b)
    × ((b || contains p.round_robin_models model) ≡ true)
    × (Dict.get p.tokenizers model ≡ t)

-- One call for the model, in a state that gives the answer `b`.
abbrev Answers : String → Bool → Proxy → Type 0
Answers model b p =
    (is_some (get_tokenizer model p) ≡ b)
    × ((b || uses_round_robin_fallback model p) ≡ true)
    × ((s : Sources) → ensure_tokenizer s model p ≡ (p, ok b))

-- What is settled by a call that answered `b` and left the state `p`: there is a tokenizer exactly if
-- it answered yes, otherwise the model is scheduled in turn, and after any later calls the model has
-- the same tokenizer, and a call for it answers the same and changes nothing, whatever it would get
-- from outside.
abbrev pub Settled : String → Bool → Proxy → Type 0
Settled model b p =
    (is_some (get_tokenizer model p) ≡ b)
    × ((b || uses_round_robin_fallback model p) ≡ true)
    × ((later : Later)
        → (get_tokenizer model (ensure_each later p) ≡ get_tokenizer model p)
          × ((s : Sources)
              → ensure_tokenizer s model (ensure_each later p) ≡ (ensure_each later p, ok b)))

present-Answers :
    (model : String) (p : Proxy)
    → (model == "") ≡ false
    → Dict.has p.tokenizers model ≡ true
    → Answers model true p
unfolding ensure_tokenizer get_tokenizer
present-Answers model p named h =
    let (t, found) = Dict.get_of-has p.tokenizers model h in
    (rw (named, get_tokenizer, found) refl, refl, λ s. rw (named, ensure_tokenizer, h) refl)

fallback-Answers :
    (model : String) (p : Proxy)
    → (model == "") ≡ false
    → Dict.has p.tokenizers model ≡ false
    → contains p.round_robin_models model ≡ true
    → Answers model false p
unfolding ensure_tokenizer get_tokenizer uses_round_robin_fallback
fallback-Answers model p named h k = (
  rw (named, get_tokenizer, Dict.get_of-not-has p.tokenizers model h) refl,
  k,
  λ s. rw (named, ensure_tokenizer, h, k) refl,
)

-- What the attempt to load a tokenizer settles, for a model that has none.
settle_tokenizer-Answers :
    (local_only : Bool) (model : String) (o : Option Tokenizer) (p : Proxy) (b : Bool)
    → (model == "") ≡ false
    → Dict.has p.tokenizers model ≡ false
    → (settle_tokenizer local_only model o p).1 ≡ ok b
    → Answers model b (settle_tokenizer local_only model o p).0
settle_tokenizer-Answers true model none p b named h k = absurd (ground arith)
settle_tokenizer-Answers false model none p true named h k = absurd (ground arith)
settle_tokenizer-Answers false model none p false named h k =
    fallback-Answers model (record p { round_robin_models = model ∷ p.round_robin_models }) named h
      (ground arith)
settle_tokenizer-Answers local_only model (some t) p false named h k = absurd (ground arith)
settle_tokenizer-Answers local_only model (some t) p true named h k =
    present-Answers model
      (record p {
        tokenizers = Dict.set p.tokenizers model t;
        tokenizer = some (get_or_else p.tokenizer t);
      })
      named (ground (arith, Dict.has-set p.tokenizers model model t))

resumed-Answers :
    (s : Sources) (model : String) (m : Result (String × Bool)) (p : Proxy) (b : Bool)
    → (model == "") ≡ false
    → Dict.has p.tokenizers model ≡ false
    → (resume (p, m) (load_tokenizer s model)).1 ≡ ok b
    → Answers model b (resume (p, m) (load_tokenizer s model)).0
resumed-Answers s model (raise e) p b named h k = absurd (ground arith)
resumed-Answers s model (ok (source, local_only)) p b named h k =
    settle_tokenizer-Answers local_only model (s.from_pretrained source local_only) p b named h k

ok_same : {b c : Bool} → ◌≡◌ {A = Result Bool} (ok b) (ok c) → b ≡ c
ok_same h = ground arith

answered : {a b : Bool} → a ≡ false → ◌≡◌ {A = Result Bool} (ok (not a)) (ok b) → true ≡ b
answered h k = ground arith

ensure_tokenizer-Answers :
    (s : Sources) (model : String) (p : Proxy) (b : Bool)
    → (model == "") ≡ false
    → (ensure_tokenizer s model p).1 ≡ ok b
    → Answers model b (ensure_tokenizer s model p).0
unfolding ensure_tokenizer
ensure_tokenizer-Answers s model p b named =
    if-elim (λ (m : Proxy × Result Bool). m.1 ≡ ok b → Answers model b m.0)
      (model == "" || Dict.has p.tokenizers model)
      (λ there k. rw (sym (answered named k)) (present-Answers model p named (ground arith)))
      (λ missing.
        if-elim (λ (m : Proxy × Result Bool). m.1 ≡ ok b → Answers model b m.0)
          (contains p.round_robin_models model)
          (λ in_turn k.
            rw (sym (ok_same k)) (fallback-Answers model p named (ground arith) in_turn))
          (λ other k.
            resumed-Answers s model (source_of s p.tokenizer_path model) p b named (ground arith)
              k))

Kept-set :
    (model other : String) (b : Bool) (o : Option Tokenizer) (t : Tokenizer) (p : Proxy)
    → Dict.has p.tokenizers other ≡ false
    → contains p.round_robin_models other ≡ false
    → Kept model b o p
    → Kept model b o (record p {
      tokenizers = Dict.set p.tokenizers other t;
      tokenizer = some (get_or_else p.tokenizer t);
    })
Kept-set model other b o t p missing idle (has, either, got) = elim (Bool-cases (other == model)) [
  | inl same ↦ absurd (ground (arith, has, either, missing, idle, same))
  | inr differ ↦ (
    Dict.has-set p.tokenizers other model t ∙ rw differ has,
    either,
    Dict.get-set p.tokenizers other model t ∙ rw differ got,
  )
]

Kept-turn :
    (model other : String) (b : Bool) (o : Option Tokenizer) (p : Proxy)
    → Kept model b o p
    → Kept model b o (record p { round_robin_models = other ∷ p.round_robin_models })
Kept-turn model other b o p (has, either, got) = (has, ground (arith, either), got)

settle_tokenizer-Kept :
    (local_only : Bool) (model other : String) (b : Bool) (o : Option Tokenizer)
    (found : Option Tokenizer) (p : Proxy)
    → Dict.has p.tokenizers other ≡ false
    → contains p.round_robin_models other ≡ false
    → Kept model b o p
    → Kept model b o (settle_tokenizer local_only other found p).0
settle_tokenizer-Kept true model other b o none p missing idle k = k
settle_tokenizer-Kept false model other b o none p missing idle k = Kept-turn model other b o p k
settle_tokenizer-Kept local_only model other b o (some t) p missing idle k =
    Kept-set model other b o t p missing idle k

load_tokenizer-Kept :
    (s : Sources) (model other : String) (b : Bool) (o : Option Tokenizer)
    (m : Result (String × Bool)) (p : Proxy)
    → Dict.has p.tokenizers other ≡ false
    → contains p.round_robin_models other ≡ false
    → Kept model b o p
    → Kept model b o (resume (p, m) (load_tokenizer s other)).0
load_tokenizer-Kept s model other b o (raise e) p missing idle k = k
load_tokenizer-Kept s model other b o (ok (source, local_only)) p missing idle k =
    settle_tokenizer-Kept local_only model other b o (s.from_pretrained source local_only) p missing
      idle k

-- A call for any model keeps what another has settled.
ensure_tokenizer-Kept :
    (s : Sources) (model other : String) (b : Bool) (o : Option Tokenizer) (p : Proxy)
    → Kept model b o p
    → Kept model b o (ensure_tokenizer s other p).0
unfolding ensure_tokenizer
ensure_tokenizer-Kept s model other b o p k =
    if-elim (λ (m : Proxy × Result Bool). Kept model b o m.0)
      (other == "" || Dict.has p.tokenizers other) (λ there. k)
      (λ absent.
        if-elim (λ (m : Proxy × Result Bool). Kept model b o m.0)
          (contains p.round_robin_models other) (λ in_turn. k)
          (λ idle.
            load_tokenizer-Kept s model other b o (source_of s p.tokenizer_path other) p
              (ground (arith, absent)) idle k))

ensure_each-Kept :
    (later : Later) (model : String) (b : Bool) (o : Option Tokenizer) (p : Proxy)
    → Kept model b o p
    → Kept model b o (ensure_each later p)
unfolding ensure_each
ensure_each-Kept [] model b o p k = k
ensure_each-Kept ((s, other) ∷ later) model b o p k =
    ensure_each-Kept later model b o (ensure_tokenizer s other p).0
      (ensure_tokenizer-Kept s model other b o p k)

Kept-Answers :
    (model : String) (b : Bool) (o : Option Tokenizer) (p : Proxy)
    → (model == "") ≡ false
    → Kept model b o p
    → Answers model b p
Kept-Answers model true o p named (has, either, got) = present-Answers model p named has
Kept-Answers model false o p named (has, either, got) = fallback-Answers model p named has either

Answers-Kept :
    (model : String) (b : Bool) (p : Proxy)
    → (model == "") ≡ false
    → Answers model b p
    → Kept model b (Dict.get p.tokenizers model) p
unfolding get_tokenizer uses_round_robin_fallback
Answers-Kept model b p named (known, either, again) =
    elim (Option-cases (Dict.get p.tokenizers model)) [
      | inl missing ↦ (
        ground (arith, known, named, missing, Dict.not-has_of-get p.tokenizers model missing),
        either,
        refl,
      )
      | inr (t, found) ↦ (
        ground (arith, known, named, found, Dict.has_of-get p.tokenizers model t found),
        either,
        refl,
      )
    ]

Answers-Settled :
    (model : String) (b : Bool) (p : Proxy)
    → (model == "") ≡ false
    → Answers model b p
    → Settled model b p
unfolding get_tokenizer
Answers-Settled model b p named h =
    let k = Answers-Kept model b p named h in
    (
      h.0,
      h.1,
      λ later.
          let k' = ensure_each-Kept later model b (Dict.get p.tokenizers model) p k in
          (
            rw named k'.2,
            (Kept-Answers model b (Dict.get p.tokenizers model) (ensure_each later p) named k').2,
          ),
    )

-- Once `ensure_tokenizer` has answered for a model with a name, the model has a tokenizer exactly if
-- the answer is yes, and otherwise it is scheduled in turn. After any later calls, for this model and
-- for others and whatever they get from outside, the model has the same tokenizer or none as before,
-- and a call for it gives the same answer and changes nothing.
pub ensure_tokenizer-Settled :
    (s : Sources) (model : String) (p : Proxy) (b : Bool)
    → (model == "") ≡ false
    → (ensure_tokenizer s model p).1 ≡ ok b
    → Settled model b (ensure_tokenizer s model p).0
ensure_tokenizer-Settled s model p b named h =
    Answers-Settled model b (ensure_tokenizer s model p).0 named
      (ensure_tokenizer-Answers s model p b named h)
