-- ===== src/CircuitBreaker/Invariant.antt =====
-- xpyd/circuit_breaker.py: what holds of a breaker between two calls, and what an open breaker does
-- until its timeout.
use micro_pdproxy.Base.{ℕ, ◌+◌, ◌<◌, ◌≡◌, ◌≢◌, refl, false, List, [], ◌∷◌, length, arith}
use micro_pdproxy.CircuitBreaker.{
  current_state, record_failure, record_success, CircuitBreaker, closed, opened, half_open, new,
  allow_request, Event, read, allow, failure, success, step, run,
}

pub record IsValid (b : CircuitBreaker) : Type 0 where
  pub failures_positive : 0 < b.failure_threshold
  pub successes_positive : 0 < b.success_threshold
  pub below_threshold : b.state ≡ closed → length b.failure_timestamps < b.failure_threshold
  pub cleared : b.state ≢ closed → b.failure_timestamps ≡ []
  pub counting : b.state ≡ half_open → b.half_open_successes < b.success_threshold
  pub no_successes : b.state ≢ half_open → b.half_open_successes ≡ 0
  pub no_probe : b.state ≢ half_open → b.half_open_pending ≡ false

-- A new breaker with positive thresholds is valid.
pub new-IsValid :
    (failures successes timeout window : ℕ)
    → 0 < failures
    → 0 < successes
    → IsValid (new failures successes timeout window)
unfolding new
new-IsValid failures successes timeout window p q = ground arith

pub step-IsValid : (b : CircuitBreaker) (e : Event) → IsValid b → IsValid (step b e)
unfolding step
step-IsValid b (read now) v = ground arith
step-IsValid b (allow now) v = ground arith
step-IsValid b (failure now later) v = ground arith
step-IsValid b (success now) v = ground arith

pub current_state-IsValid :
    (b : CircuitBreaker) (now : ℕ) → IsValid b → IsValid (current_state now b)
current_state-IsValid b now v = unfold step in step-IsValid b (read now) v

pub record_failure-IsValid :
    (b : CircuitBreaker) (now later : ℕ) → IsValid b → IsValid (record_failure now later b)
record_failure-IsValid b now later v = unfold step in step-IsValid b (failure now later) v

pub record_success-IsValid :
    (b : CircuitBreaker) (now : ℕ) → IsValid b → IsValid (record_success now b)
record_success-IsValid b now v = unfold step in step-IsValid b (success now) v

-- Any sequence of calls keeps a breaker valid: a closed one holds fewer failures than the threshold,
-- a half-open one fewer successes than its threshold, an open one no failure and no probe.
pub breaker_run-IsValid :
    (b : CircuitBreaker) (events : List Event) → IsValid b → IsValid (run b events)
unfolding run
breaker_run-IsValid b [] v = v
breaker_run-IsValid b (e ∷ events) v = breaker_run-IsValid (step b e) events (step-IsValid b e v)

-- The reading by which the property `state` decides.
abbrev pub decided_at : Event → ℕ
decided_at (read now) = now
decided_at (allow now) = now
decided_at (failure now later) = later
decided_at (success now) = now

abbrev pub AllBefore : ℕ → List Event → Type 0
AllBefore deadline [] = Unit
AllBefore deadline (e ∷ events) = (decided_at e < deadline) × AllBefore deadline events

step_opened :
    (b : CircuitBreaker) (e : Event)
    → b.state ≡ opened
    → decided_at e < b.opened_at + b.timeout_duration
    → step b e ≡ b
unfolding step
step_opened b (read t) o h = ground arith
step_opened b (allow t) o h = ground arith
step_opened b (failure t t') o h = ground arith
step_opened b (success t) o h = ground arith

allow_opened :
    (b : CircuitBreaker) (now : ℕ)
    → b.state ≡ opened
    → now < b.opened_at + b.timeout_duration
    → (allow_request now b).1 ≡ false
unfolding allow_request
allow_opened b now o h = ground arith

pub run_opened :
    (b : CircuitBreaker) (events : List Event)
    → b.state ≡ opened
    → AllBefore (b.opened_at + b.timeout_duration) events
    → run b events ≡ b
unfolding run
run_opened b [] o h = refl
run_opened b (e ∷ events) o h = rw (step_opened b e o h.0) (run_opened b events o h.1)

-- Whatever is called on an open breaker before its timeout has elapsed, the breaker stays as it is
-- and admits no request.
pub opened_denies :
    (b : CircuitBreaker) (events : List Event) (now : ℕ)
    → b.state ≡ opened
    → AllBefore (b.opened_at + b.timeout_duration) events
    → now < b.opened_at + b.timeout_duration
    → (run b events ≡ b) × ((allow_request now (run b events)).1 ≡ false)
opened_denies b events now o h p =
    let same = run_opened b events o h in (same, rw same (allow_opened b now o p))
