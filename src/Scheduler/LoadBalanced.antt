-- ===== src/Scheduler/LoadBalanced.antt =====
-- xpyd/scheduler/load_balanced.py: the least-loaded scheduler. The fields of one role, which the
-- source prefixes with `prefill_` or `decode_`, are a `Pool`. The lists of instances are the
-- proxy's own. `available` is what the registry answered, if there is a registry.
pub mod Candidates
pub mod Least
pub mod Completion
pub mod DecodeLeast
use micro_pdproxy.Base.{
  ℕ, zero, suc, ◌+◌, ◌-◌, String, Bool, true, false, ◌&&◌, Option, none, some, List, [], ◌∷◌, ◌++◌,
  map, length, set, remove_at, replicate, leb, eqb, ◌==◌, contains, if◌then◌else◌, Result, Error,
  ok, raise, value_error, stop_iteration, at, or_raise, ◌>>=◌,
}
use micro_pdproxy.Base.Int.{ℤ, pos, ◌+ℤ◌, ◌-ℤ◌, ltb_ℤ, eqb_ℤ}

-- `utils` counts the tokens, `bs` the requests that an instance holds.
pub record Pool : Type 0 where
  pub instances : List String
  pub utils : List ℤ
  pub bs : List ℕ
  pub model_len : List ℕ
  pub schedule_index : ℕ
  pub completion_index : ℕ

pub record LoadBalancedScheduler : Type 0 where
  pub prefill : Pool
  pub decode : Pool

-- What `__init__` sets for one role; `model_len` is what the instances answered.
unfoldable pub new_pool : List String → List ℕ → Pool
new_pool instances model_len = record {
  instances = instances;
  utils = replicate (length instances) (pos 0);
  bs = replicate (length instances) 0;
  model_len = model_len;
  schedule_index = 0;
  completion_index = 0;
}

-- __init__
unfoldable pub init : List String → List ℕ → List String → List ℕ → LoadBalancedScheduler
unfolding new_pool
init prefill prefill_len decode decode_len = record {
  prefill = new_pool prefill prefill_len;
  decode = new_pool decode decode_len;
}

unfoldable pub extend : ℕ → Pool → Pool
extend max_model_len p = record p {
  utils = p.utils ++ (pos 0 ∷ []);
  bs = p.bs ++ (0 ∷ []);
  model_len = p.model_len ++ (max_model_len ∷ []);
}

unfoldable pub add_instance_state : String → ℕ → LoadBalancedScheduler → LoadBalancedScheduler
unfolding extend
add_instance_state role max_model_len s =
    if role == "prefill"
    then record s { prefill = extend max_model_len s.prefill }
    else record s { decode = extend max_model_len s.decode }

unfoldable pub shrink : ℕ → Pool → Pool
shrink index p = record p {
  utils = remove_at p.utils index;
  bs = remove_at p.bs index;
  model_len = remove_at p.model_len index;
}

-- The caller passes an index of the list of instances, which is in range.
unfoldable pub remove_instance_state : String → ℕ → LoadBalancedScheduler → LoadBalancedScheduler
unfolding shrink
remove_instance_state role index s =
    if role == "prefill"
    then record s { prefill = shrink index s.prefill }
    else record s { decode = shrink index s.decode }

-- `available is None or instances[i] in available`
unfoldable pub usable : Option (List String) → List String → ℕ → Result Bool
usable none instances i = ok true
usable (some available) instances i = do instance ← at instances i; ok (contains available instance)

-- The comprehension `candidates`, from index `i` on.
unfoldable pub candidates_from :
    ℕ → Option (List String) → List String → ℕ → List ℕ → Result (List ℕ)
unfolding usable
candidates_from need available instances i [] = ok []
candidates_from need available instances i (max_len ∷ lens) =
    let rest = candidates_from need available instances (suc i) lens in
    if leb need max_len
    then (do
      fits ← usable available instances i
      others ← rest
      ok (if fits then i ∷ others else others))
    else rest

-- min(counter[i] for i in candidates), over the candidates behind the least value so far
unfoldable pub min_value : List ℤ → ℤ → List ℕ → Result ℤ
min_value counter least [] = ok least
min_value counter least (i ∷ is) = do
  v ← at counter i
  min_value counter (if ltb_ℤ v least then v else least) is

-- next(i for i in candidates if counter[i] == value)
unfoldable pub first_at : List ℤ → ℤ → List ℕ → Result ℕ
first_at counter value [] = raise stop_iteration
first_at counter value (i ∷ is) = do
  v ← at counter i
  if eqb_ℤ v value then ok i else first_at counter value is

unfoldable pub book : ℕ → ℕ → Pool → Result (Pool × Option String)
book request_len index p = do
  b ← at p.bs index
  u ← at p.utils index
  instance ← at p.instances index
  ok (
    record p {
      bs = set p.bs index (b + 1);
      utils = set p.utils index (u +ℤ pos request_len);
      schedule_index = p.schedule_index + 1;
    },
    some instance,
  )

-- The candidates of `_schedule_prefill`, which are not empty, with the first apart.
pick_prefill : ℕ → List ℕ → Pool → Result (Pool × Option String)
pick_prefill request_len [] p = ok (p, none)
pick_prefill request_len (c ∷ cs) p = do
  v ← at p.utils c
  least ← min_value p.utils v cs
  index ← first_at p.utils least (c ∷ cs)
  book request_len index p

unfoldable pub schedule_prefill :
    Option (List String) → ℕ → ℕ → Pool → Result (Pool × Option String)
unfolding candidates_from pick_prefill
schedule_prefill available request_len max_tokens p = do
  candidates ← candidates_from (request_len + max_tokens) available p.instances 0 p.model_len
  pick_prefill request_len candidates p

-- [i for i in candidates if counter[i] == value]
unfoldable pub all_at : List ℤ → ℤ → List ℕ → Result (List ℕ)
all_at counter value [] = ok []
all_at counter value (i ∷ is) =
    let rest = all_at counter value is in
    do v ← at counter i; others ← rest; ok (if eqb_ℤ v value then i ∷ others else others)

-- min(indices, key=lambda i: counter[i]), over the indices behind the best so far
unfoldable pub min_key : List ℤ → ℕ → ℤ → List ℕ → Result ℕ
min_key counter best value [] = ok best
min_key counter best value (i ∷ is) = do
  v ← at counter i
  min_key counter (if ltb_ℤ v value then i else best) (if ltb_ℤ v value then v else value) is

-- `min` of no index raises.
unfoldable pub least_of : List ℤ → List ℕ → Result ℕ
unfolding min_key
least_of counter [] = raise value_error
least_of counter (i ∷ is) = do v ← at counter i; min_key counter i v is

-- The candidates of `_schedule_decode`. The numbers of requests are compared as integers.
pick_decode : ℕ → List ℕ → Pool → Result (Pool × Option String)
pick_decode request_len [] p = ok (p, none)
pick_decode request_len (c ∷ cs) p = do
  let counter = map pos p.bs
  v ← at counter c
  least ← min_value counter v cs
  index ←
      if eqb_ℤ least (pos 0)
      then first_at counter (pos 0) (c ∷ cs)
      else (all_at counter least (c ∷ cs) >>= λ min_indices. least_of p.utils min_indices)
  book request_len index p

unfoldable pub schedule_decode : Option (List String) → ℕ → ℕ → Pool → Result (Pool × Option String)
unfolding candidates_from pick_decode
schedule_decode available request_len max_tokens p = do
  candidates ← candidates_from (request_len + max_tokens) available p.instances 0 p.model_len
  pick_decode request_len candidates p

abbrev with_prefill :
    LoadBalancedScheduler → Pool × Option String → LoadBalancedScheduler × Option String
with_prefill s (p, chosen) = (record s { prefill = p }, chosen)

abbrev with_decode :
    LoadBalancedScheduler → Pool × Option String → LoadBalancedScheduler × Option String
with_decode s (p, chosen) = (record s { decode = p }, chosen)

-- `available` is the registry's answer for the role.
unfoldable pub schedule :
    Option (List String)
    → Bool
    → ℕ
    → ℕ
    → LoadBalancedScheduler
    → Result (LoadBalancedScheduler × Option String)
unfolding schedule_prefill schedule_decode
schedule available is_prompt request_len max_tokens s =
    if is_prompt
    then (schedule_prefill available request_len max_tokens s.prefill >>= λ r.
        ok (with_prefill s r))
    else (schedule_decode available request_len max_tokens s.decode >>= λ r. ok (with_decode s r))

-- instances.index(instance), from index `i` on
unfoldable pub index_from : ℕ → String → List String → Result ℕ
index_from i instance [] = raise value_error
index_from i instance (x ∷ xs) = if x == instance then ok i else index_from (suc i) instance xs

abbrev pub all_zero : List ℕ → Bool
all_zero [] = true
all_zero (c ∷ cs) = eqb c 0 && all_zero cs

-- The state after the request of the instance at `index`, which holds `b`, has ended.
unfoldable pub release : ℕ → ℕ → ℕ → Pool → Result Pool
release req_len index b p =
    let bs = set p.bs index (b - 1) in
    let q = record p { bs = bs; completion_index = p.completion_index + 1 } in
    if all_zero bs
    then ok (record q { utils = replicate (length p.instances) (pos 0) })
    else (do u ← at p.utils index; ok (record q { utils = set p.utils index (u -ℤ pos req_len) }))

-- _complete_prefill and _complete_decode, which differ in what they log.
unfoldable pub complete : String → ℕ → Pool → Result Pool
unfolding index_from release
complete instance req_len p = do
  index ← index_from 0 instance p.instances
  b ← at p.bs index
  if eqb b 0 then ok p else release req_len index b p

-- `if instance:` skips `None` and the empty text.
unfoldable pub complete_if : Option String → ℕ → Pool → Result Pool
unfolding complete
complete_if none req_len p = ok p
complete_if (some instance) req_len p = if instance == "" then ok p else complete instance req_len p

-- Where the decode part raises, the prefill part is done: the state comes back with the error.
unfoldable pub schedule_completion :
    Option String → Option String → ℕ → LoadBalancedScheduler → LoadBalancedScheduler × Option Error
unfolding complete_if
schedule_completion prefill_instance decode_instance req_len s =
    elim (complete_if prefill_instance req_len s.prefill) [
      | raise e ↦ (s, some e)
      | ok prefill ↦ elim (complete_if decode_instance req_len s.decode) [
        | raise e ↦ (record s { prefill = prefill }, some e)
        | ok decode ↦ (record { prefill = prefill; decode = decode }, none)
      ]
    ]
