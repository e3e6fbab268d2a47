-- ===== src/Resilience/Attempts.antt =====
-- xpyd/resilience.py: the loop of `execute` as a relation between an attempt and what comes of it,
-- how many requests there are, and to which instances.
use micro_pdproxy.Base.{
  ℕ, zero, suc, ◌+◌, ◌≤◌, ◌≡◌, ◌⊎◌, ap, ◌∙◌, refl, String, true, false, Option, some, List, [], ◌∷◌,
  ◌++◌, if-intro, Result, Error, ok, raise, arith, length, Result-cases, Bool-cases, Option-cases,
  inl, inr,
}
use micro_pdproxy.Resilience.{
  ResilienceConfig, Response, Event, requested, success, failure, pause, is_success, should_retry,
  attempts, execute, single, before, Outcome, Hooks, succeed, give_up, then_retry, report_success,
  report_failure,
}

-- The instances that got a request, in order.
abbrev pub requests : List Event → List String
requests [] = []
requests (requested a ∷ events) = a ∷ requests events
requests (success a ∷ events) = requests events
requests (failure a n ∷ events) = requests events
requests (pause ∷ events) = requests events

requests-report_success :
    (hooks : Hooks) (i : String) (r : Response) → requests (report_success hooks i r).0 ≡ []
requests-report_success hooks i r = ground arith

requests-report_failure :
    (hooks : Hooks) (i : String) (n : ℕ) (r : Response)
    → requests (report_failure hooks i n r).0 ≡ []
requests-report_failure hooks i n r = ground arith

requests-before :
    (i : String) (o : Outcome) → requests (before (requested i ∷ []) o).0 ≡ i ∷ requests o.0
requests-before i o = refl

pub requests-succeed :
    (hooks : Hooks) (i : String) (r : Response) → requests (succeed hooks i r).0 ≡ i ∷ []
requests-succeed hooks i r =
    requests-before i (report_success hooks i r)
    ∙ ap (λ xs. i ∷ xs) (requests-report_success hooks i r)

pub requests-give_up :
    (hooks : Hooks) (n : ℕ) (i : String) (r : Response) → requests (give_up hooks n i r).0 ≡ i ∷ []
requests-give_up hooks n i r =
    requests-before i (report_failure hooks i n r)
    ∙ ap (λ xs. i ∷ xs) (requests-report_failure hooks i n r)

requests-++ :
    (xs : List Event) (o : Outcome) → requests (before xs o).0 ≡ requests xs ++ requests o.0
requests-++ [] o = refl
requests-++ (requested a ∷ xs) o = ap (λ ys. a ∷ ys) (requests-++ xs o)
requests-++ (success a ∷ xs) o = requests-++ xs o
requests-++ (failure a n ∷ xs) o = requests-++ xs o
requests-++ (pause ∷ xs) o = requests-++ xs o

-- An attempt that is not the last, if there is a next one.
pub requests-then_retry :
    (i : String) (m o : Outcome)
    → requests m.0 ≡ i ∷ []
    → (requests (then_retry m o).0 ≡ i ∷ []) ⊎ (requests (then_retry m o).0 ≡ i ∷ requests o.0)
requests-then_retry i (events, raise e) o h = inl h
requests-then_retry i (events, ok r) o h =
    inr (requests-++ events (before (pause ∷ []) o) ∙ ap (λ xs. xs ++ requests o.0) h)

pub single-requests :
    (hooks : Hooks) (request : String → Result Response) (i : String)
    → requests (single hooks request i).0 ≡ i ∷ []
unfolding single
single-requests hooks request i = elim (Result-cases (request i)) [
  | inr (e, h) ↦ rw (h, single) refl
  | inl (r, h) ↦ elim (Bool-cases (is_success r.status_code)) [
    | inl good ↦ rw (h, single, good) (requests-succeed hooks i r)
    | inr bad ↦ rw (h, single, bad) (requests-give_up hooks 0 i r)
  ]
]

module _ (config : ResilienceConfig) (hooks : Hooks) (request : ℕ → String → Result Response)
    (another : ℕ → List String → Result (Option String)) where
  -- How an attempt on the instance `i` may go.
  pub data Run : ℕ → ℕ → String → List String → Outcome → Type 0 where
    raised :
        {left attempt : ℕ} {i : String} {tried : List String} (e : Error)
        → request attempt i ≡ raise e
        → Run left attempt i tried (requested i ∷ [], raise e)
    succeeded :
        {left attempt : ℕ} {i : String} {tried : List String} (r : Response)
        → request attempt i ≡ ok r
        → is_success r.status_code ≡ true
        → Run left attempt i tried (succeed hooks i r)
    gave_up :
        {left attempt : ℕ} {i : String} {tried : List String} (r : Response)
        → request attempt i ≡ ok r
        → is_success r.status_code ≡ false
        → Run left attempt i tried (give_up hooks attempt i r)
    retried :
        {left attempt : ℕ} {i : String} {tried : List String} {o : Outcome} (r : Response)
        (next : String)
        → request attempt i ≡ ok r
        → is_success r.status_code ≡ false
        → should_retry config r.status_code r.is_streaming ≡ true
        → another attempt (tried ++ (i ∷ [])) ≡ ok (some next)
        → Run left (suc attempt) next (tried ++ (i ∷ [])) o
        → Run (suc left) attempt i tried (then_retry (give_up hooks attempt i r) o)

  pub attempts-Run :
      (left attempt : ℕ) (i : String) (tried : List String)
      → Run left attempt i tried (attempts config hooks request another left attempt i tried)
  unfolding attempts
  attempts-Run zero attempt i tried = elim (Result-cases (request attempt i)) [
    | inr (e, h) ↦ rw (h, attempts) (raised e h)
    | inl (r, h) ↦ elim (Bool-cases (is_success r.status_code)) [
      | inl good ↦ rw (h, attempts, good) (succeeded r h good)
      | inr bad ↦ rw (h, attempts, bad) (gave_up r h bad)
    ]
  ]
  attempts-Run (suc left) attempt i tried = elim (Result-cases (request attempt i)) [
    | inr (e, h) ↦ rw (h, attempts) (raised e h)
    | inl (r, h) ↦ elim (Bool-cases (is_success r.status_code)) [
      | inl good ↦ rw (h, attempts, good) (succeeded r h good)
      | inr bad ↦ elim (Bool-cases (should_retry config r.status_code r.is_streaming)) [
        | inr no_more ↦ rw (h, attempts, bad, no_more) (gave_up r h bad)
        | inl more ↦ elim (Result-cases (another attempt (tried ++ (i ∷ [])))) [
          | inr (e, none_left) ↦ rw (h, attempts, bad, more, none_left) (gave_up r h bad)
          | inl (o, chosen) ↦ elim (Option-cases o) [
            | inl nothing ↦ rw (h, attempts, bad, more, chosen, nothing) (gave_up r h bad)
            | inr (next, something) ↦
                rw (h, attempts, bad, more, chosen, something)
                  (retried r next h bad more (rw (chosen, something) refl)
                    (attempts-Run left (suc attempt) next (tried ++ (i ∷ []))))
          ]
        ]
      ]
    ]
  ]

  Run-bound :
      {left attempt : ℕ} {i : String} {tried : List String} {o : Outcome}
      → Run left attempt i tried o
      → length (requests o.0) ≤ left + 1
  Run-bound (raised e h) = omega arith
  Run-bound (succeeded {left} {attempt} {i} r h good) =
      omega (arith, ap length (requests-succeed hooks i r))
  Run-bound (gave_up {left} {attempt} {i} r h bad) =
      omega (arith, ap length (requests-give_up hooks attempt i r))
  Run-bound (retried {left} {attempt} {i} {tried} {o} r next h bad more chosen run) =
      elim (requests-then_retry i (give_up hooks attempt i r) o
        (requests-give_up hooks attempt i r)) [
          | inl alone ↦ omega (arith, ap length alone)
          | inr more' ↦ omega (arith, ap length more', Run-bound run)
        ]

  -- Whatever the callbacks do, `execute` with `max_retries = n` sends at most n + 1 requests.
  pub execute_bound :
      (first : Result String)
      → length (requests (execute config hooks request another first).0) ≤ config.max_retries + 1
  unfolding execute
  execute_bound (raise e) = omega arith
  execute_bound (ok instance) =
      if-intro (λ (o : Outcome). length (requests o.0) ≤ config.max_retries + 1) config.enabled
        (Run-bound (attempts-Run config.max_retries 0 instance []))
        (omega (arith, ap length (single-requests hooks (request 0) instance)))
