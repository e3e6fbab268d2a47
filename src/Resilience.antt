-- ===== src/Resilience.antt =====
-- xpyd/resilience.py: `ResilienceHandler.execute`. The callbacks are arguments: `request` answers
-- for an attempt and an instance, `first` is the selection before the first attempt, `another` that
-- after a failed attempt, which is told the instances tried, and `Hooks` has `on_success` and
-- `on_failure`. What the handler does outwardly is the list of events. The length of a pause (`compute_backoff`, in floats and with jitter) is left out.
pub mod Attempts
pub mod Reports
use micro_pdproxy.Base.{
  ℕ, zero, suc, String, Bool, true, false, not, ◌&&◌, Option, none, some, List, [], ◌∷◌, ◌++◌, ltb,
  leb, eqb, if◌then◌else◌, Result, ok, raise, Error,
}

-- The fields that decide about retries.
pub record ResilienceConfig : Type 0 where
  pub enabled : Bool
  pub max_retries : ℕ
  pub retryable_status_codes : List ℕ

pub record Response : Type 0 where
  pub status_code : ℕ
  pub is_streaming : Bool

pub data Event : Type 0 where
  requested : String → Event
  success : String → Event
  failure : String → ℕ → Event
  pause : Event

abbrev pub has_code : List ℕ → ℕ → Bool
has_code [] c = false
has_code (x ∷ xs) c = if eqb x c then true else has_code xs c

-- _should_retry
unfoldable pub should_retry : ResilienceConfig → ℕ → Bool → Bool
should_retry config status_code is_streaming =
    if is_streaming then false else has_code config.retryable_status_codes status_code

-- 200 <= status < 300
abbrev pub is_success : ℕ → Bool
is_success status = leb 200 status && ltb status 300

-- The two optional callbacks, each with the exception that it raises, if it raises one.
pub record Hooks : Type 0 where
  pub on_success : Option (String → Response → Option Error)
  pub on_failure : Option (String → Response → ℕ → Option Error)

-- What happened, and what `execute` returns or raises.
abbrev pub Outcome : Type 0
Outcome = List Event × Result Response

abbrev pub before : List Event → Outcome → Outcome
before [] o = o
before (e ∷ events) o = let (rest, r) = before events o in (e ∷ rest, r)

-- A callback that is there is called; what it raises is raised in place of the response.
abbrev pub returned : Event → Response → Option Error → Outcome
returned event r none = (event ∷ [], ok r)
returned event r (some e) = (event ∷ [], raise e)

abbrev pub report_success : Hooks → String → Response → Outcome
report_success hooks instance r = elim hooks.on_success [
  | none ↦ ([], ok r)
  | some f ↦ returned (success instance) r (f instance r)
]

abbrev pub report_failure : Hooks → String → ℕ → Response → Outcome
report_failure hooks instance attempt r = elim hooks.on_failure [
  | none ↦ ([], ok r)
  | some f ↦ returned (failure instance attempt) r (f instance r attempt)
]

-- An attempt that succeeds, and one whose answer is returned although it failed.
abbrev pub succeed : Hooks → String → Response → Outcome
succeed hooks instance r = before (requested instance ∷ []) (report_success hooks instance r)

abbrev pub give_up : Hooks → ℕ → String → Response → Outcome
give_up hooks attempt instance r =
    before (requested instance ∷ []) (report_failure hooks instance attempt r)

-- With retries disabled.
unfoldable pub single : Hooks → (String → Result Response) → String → Outcome
single hooks request instance = elim (request instance) [
  | raise e ↦ (requested instance ∷ [], raise e)
  | ok r ↦ if is_success r.status_code then succeed hooks instance r else give_up hooks 0 instance r
]

-- The call of `on_failure` before a pause, and the attempts behind it.
abbrev pub then_retry : Outcome → Outcome → Outcome
then_retry (events, raise e) rest = (events, raise e)
then_retry (events, ok r) rest = before events (before (pause ∷ []) rest)

module _ (config : ResilienceConfig) (hooks : Hooks) (request : ℕ → String → Result Response)
    (another : ℕ → List String → Result (Option String)) where
  -- The `for` loop from an attempt on, with `left` attempts after it. Only the first attempt
  -- selects its instance itself; each later one has the instance chosen after the one before.
  unfoldable pub attempts : ℕ → ℕ → String → List String → Outcome
  attempts zero attempt instance tried = elim (request attempt instance) [
    | raise e ↦ (requested instance ∷ [], raise e)
    | ok r ↦
        if is_success r.status_code
        then succeed hooks instance r
        else give_up hooks attempt instance r
  ]
  attempts (suc left) attempt instance tried = elim (request attempt instance) [
    | raise e ↦ (requested instance ∷ [], raise e)
    | ok r ↦ elim (is_success r.status_code) [
      | true ↦ succeed hooks instance r
      | false ↦ elim (should_retry config r.status_code r.is_streaming) [
        | false ↦ give_up hooks attempt instance r
        | true ↦ elim (another attempt (tried ++ (instance ∷ []))) [
          | raise e ↦ give_up hooks attempt instance r
          | ok none ↦ give_up hooks attempt instance r
          | ok (some next) ↦
              then_retry (give_up hooks attempt instance r)
                (attempts left (suc attempt) next (tried ++ (instance ∷ [])))
        ]
      ]
    ]
  ]

  unfoldable pub execute : Result String → Outcome
  unfolding single attempts
  execute first = elim first [
    | raise e ↦ ([], raise e)
    | ok instance ↦
        if config.enabled
        then attempts config.max_retries 0 instance []
        else single hooks (request 0) instance
  ]
