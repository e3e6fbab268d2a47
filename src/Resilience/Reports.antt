-- ===== src/Resilience/Reports.antt =====
-- xpyd/resilience.py: the calls of `on_success` and `on_failure`, and the exclusion of the instances
-- that were tried.
use micro_pdproxy.Base.{
  ℕ, suc, ◌≡◌, ◌⊎◌, refl, String, true, false, Option, some, List, [], ◌∷◌, ◌++◌, contains,
  Distinct, Result, ok, raise, arith, if◌then◌else◌, if-intro, inl, inr, Error,
}
use micro_pdproxy.Resilience.{
  ResilienceConfig, Response, Event, requested, success, failure, pause, is_success, execute,
  Outcome, Hooks, succeed, give_up, then_retry,
}
use micro_pdproxy.Resilience.Attempts.{
  requests, Run, raised, succeeded, gave_up, retried, attempts-Run, requests-succeed,
  requests-give_up, requests-then_retry, single-requests,
}

-- The instances reported, in order.
abbrev pub reports : List Event → List String
reports [] = []
reports (requested a ∷ events) = reports events
reports (success a ∷ events) = a ∷ reports events
reports (failure a n ∷ events) = a ∷ reports events
reports (pause ∷ events) = reports events

abbrev pub successes : List Event → ℕ
successes [] = 0
successes (requested a ∷ events) = successes events
successes (success a ∷ events) = suc (successes events)
successes (failure a n ∷ events) = successes events
successes (pause ∷ events) = successes events

-- Both callbacks are given.
abbrev pub both :
    (String → Response → Option Error) → (String → Response → ℕ → Option Error) → Hooks
both f g = record { on_success = some f; on_failure = some g }

module _ (f : String → Response → Option Error) (g : String → Response → ℕ → Option Error) where
  -- Of what raised: the last request, whose instance is the only one that is not reported, or
  -- `on_failure`, or `on_success`.
  abbrev pub Broken : List Event → Error → Type 0
  Broken events e =
      ((successes events ≡ 0) × (i : String) × (requests events ≡ reports events ++ (i ∷ [])))
      ⊎ (((successes events ≡ 0)
            × (requests events ≡ reports events)
            × (i : String) × (r : Response) × (n : ℕ) × (g i r n ≡ some e))
          ⊎ ((successes events ≡ 1)
              × (requests events ≡ reports events)
              × (i : String) × (r : Response) × (f i r ≡ some e)))

  abbrev Ended : Outcome → Type 0
  Ended (events, ok r) =
      (reports events ≡ requests events)
      × (successes events ≡ (if is_success r.status_code then 1 else 0))
  Ended (events, raise e) = Broken events e

  -- The reports are of the requests, each once and in order, and there is a success exactly if the
  -- answer returned is one. Where something raises, either it is the first selection and nothing has
  -- happened, or the last request, or a callback.
  abbrev pub Reported : Outcome → Type 0
  Reported (events, ok r) =
      (reports events ≡ requests events)
      × (successes events ≡ (if is_success r.status_code then 1 else 0))
  Reported (events, raise e) = (events ≡ []) ⊎ Broken events e

-- A selection that never gives an instance it is told to exclude.
abbrev pub Excludes : (ℕ → List String → Result (Option String)) → Type 0
Excludes another =
    (attempt : ℕ) (tried : List String) (next : String)
    → another attempt tried ≡ ok (some next)
    → contains tried next ≡ false

contains-snoc : (xs : List String) (i : String) → contains (xs ++ (i ∷ [])) i ≡ true
contains-snoc [] i = ground arith
contains-snoc (x ∷ xs) i = ground (arith, contains-snoc xs i)

contains_before :
    (xs : List String) (i k : String) → contains xs k ≡ true → contains (xs ++ (i ∷ [])) k ≡ true
contains_before [] i k h = ground arith
contains_before (x ∷ xs) i k h = ground (arith, contains_before xs i k)

-- One request, to an instance that is new.
alone :
    (i : String) (o : Outcome) (tried : List String)
    → requests o.0 ≡ i ∷ []
    → contains tried i ≡ false
    → Distinct (requests o.0)
      × ((k : String) → contains tried k ≡ true → contains (requests o.0) k ≡ false)
alone i o tried h new = (rw h (refl, tt), λ k. ground (arith, h))

module _ (config : ResilienceConfig) (hooks : Hooks) (request : ℕ → String → Result Response)
    (another : ℕ → List String → Result (Option String)) where
  Run-Distinct :
      {left attempt : ℕ} {i : String} {tried : List String} {o : Outcome}
      → Excludes another
      → Run config hooks request another left attempt i tried o
      → contains tried i ≡ false
      → Distinct (requests o.0)
        × ((k : String) → contains tried k ≡ true → contains (requests o.0) k ≡ false)
  Run-Distinct honest (raised e h) new = ((refl, tt), λ k. ground arith)
  Run-Distinct honest (succeeded {left} {attempt} {i} {tried} r h good) new =
      alone i (succeed hooks i r) tried (requests-succeed hooks i r) new
  Run-Distinct honest (gave_up {left} {attempt} {i} {tried} r h bad) new =
      alone i (give_up hooks attempt i r) tried (requests-give_up hooks attempt i r) new
  Run-Distinct honest (retried {left} {attempt} {i} {tried} {o} r next h bad more chosen run) new =
      let (once, fresh) =
        Run-Distinct honest run (honest attempt (tried ++ (i ∷ [])) next chosen) in
      elim (requests-then_retry i (give_up hooks attempt i r) o
        (requests-give_up hooks attempt i r)) [
          | inl last ↦ alone i (then_retry (give_up hooks attempt i r) o) tried last new
          | inr further ↦ (
            rw further (fresh i (contains-snoc tried i), once),
            λ k. ground (arith, further, fresh k, contains_before tried i k),
          )
        ]

  -- If the selection never gives an excluded instance, then `execute` sends no two requests to the
  -- same instance.
  pub execute-Distinct :
      (first : Result String)
      → Excludes another
      → Distinct (requests (execute config hooks request another first).0)
  unfolding execute
  execute-Distinct (raise e) honest = tt
  execute-Distinct (ok instance) honest =
      if-intro (λ (o : Outcome). Distinct (requests o.0)) config.enabled
        (Run-Distinct honest
          (attempts-Run config hooks request another config.max_retries 0 instance []) refl).0
        (rw (single-requests hooks (request 0) instance) (refl, tt))
