-- ===== src/CircuitBreaker.antt =====
-- xpyd/circuit_breaker.py: the circuit breaker of one instance. Times are whole ticks of the
-- clock; a method takes each reading that it makes as an argument. An inequality between
-- differences of times is written with the subtracted term on the other side, so nothing is
-- truncated.
pub mod Invariant
pub mod Window
pub mod Probes
use micro_pdproxy.Base.{
  ℕ, ◌+◌, Bool, true, false, List, [], ◌∷◌, ◌++◌, length, ltb, leb, if◌then◌else◌,
}

-- The three states; `opened` is the source's OPEN.
pub data CircuitBreakerState : Type 0 where
  closed opened half_open : CircuitBreakerState

abbrev pub is_closed : CircuitBreakerState → Bool
is_closed closed = true
is_closed opened = false
is_closed half_open = false

pub record CircuitBreaker : Type 0 where
  pub failure_threshold : ℕ
  pub success_threshold : ℕ
  pub timeout_duration : ℕ
  pub window_duration : ℕ
  pub state : CircuitBreakerState
  pub failure_timestamps : List ℕ
  pub opened_at : ℕ
  pub half_open_successes : ℕ
  pub half_open_pending : Bool

-- __init__
unfoldable pub new : ℕ → ℕ → ℕ → ℕ → CircuitBreaker
new failures successes timeout window = record {
  failure_threshold = failures;
  success_threshold = successes;
  timeout_duration = timeout;
  window_duration = window;
  state = closed;
  failure_timestamps = [];
  opened_at = 0;
  half_open_successes = 0;
  half_open_pending = false;
}

elapse : CircuitBreakerState → ℕ → CircuitBreaker → CircuitBreaker
elapse opened now b =
    if leb (b.opened_at + b.timeout_duration) now
    then record b { state = half_open; half_open_successes = 0 }
    else b
elapse closed now b = b
elapse half_open now b = b

-- The property `state`: it may move the breaker from OPEN to HALF-OPEN. The value read is the
-- field `state` of the result.
unfoldable pub current_state : ℕ → CircuitBreaker → CircuitBreaker
unfolding elapse
current_state now b = elapse b.state now b

unfoldable pub open_at : ℕ → CircuitBreaker → CircuitBreaker
open_at now b = record b {
  state = opened;
  opened_at = now;
  failure_timestamps = [];
  half_open_successes = 0;
  half_open_pending = false;
}

unfoldable pub close : CircuitBreaker → CircuitBreaker
close b = record b {
  state = closed;
  failure_timestamps = [];
  half_open_successes = 0;
  half_open_pending = false;
}

-- `while timestamps and timestamps[0] < now - window: timestamps.popleft()`
unfoldable pub purge : ℕ → ℕ → List ℕ → List ℕ
purge window now [] = []
purge window now (t ∷ ts) = if ltb (t + window) now then purge window now ts else t ∷ ts

unfoldable pub purge_old_failures : ℕ → CircuitBreaker → CircuitBreaker
unfolding purge
purge_old_failures now b = record b {
  failure_timestamps = purge b.window_duration now b.failure_timestamps;
}

admit_request : CircuitBreakerState → CircuitBreaker → CircuitBreaker × Bool
admit_request closed b = (b, true)
admit_request opened b = (b, false)
admit_request half_open b =
    if b.half_open_pending then (b, false) else (record b { half_open_pending = true }, true)

unfoldable pub allow_request : ℕ → CircuitBreaker → CircuitBreaker × Bool
unfolding current_state admit_request
allow_request now b = let b' = current_state now b in admit_request b'.state b'

trip_if_reached : ℕ → CircuitBreaker → CircuitBreaker
unfolding open_at
trip_if_reached now b =
    if leb b.failure_threshold (length b.failure_timestamps) then open_at now b else b

failed_request : CircuitBreakerState → ℕ → CircuitBreaker → CircuitBreaker
unfolding open_at purge_old_failures trip_if_reached
failed_request half_open now b = open_at now b
failed_request opened now b = b
failed_request closed now b =
    trip_if_reached now (
      purge_old_failures now (record b { failure_timestamps = b.failure_timestamps ++ (now ∷ []) }))

-- `now` is the reading at the head of the method, `later` the one that `state` makes.
unfoldable pub record_failure : ℕ → ℕ → CircuitBreaker → CircuitBreaker
unfolding current_state failed_request
record_failure now later b = let b' = current_state later b in failed_request b'.state now b'

probe_succeeded : CircuitBreaker → CircuitBreaker
unfolding close
probe_succeeded b =
    let b' = record b { half_open_successes = b.half_open_successes + 1 } in
    if leb b'.success_threshold b'.half_open_successes
    then close b'
    else record b' { half_open_pending = false }

succeeded_request : CircuitBreakerState → CircuitBreaker → CircuitBreaker
unfolding probe_succeeded
succeeded_request half_open b = probe_succeeded b
succeeded_request opened b = b
succeeded_request closed b = b

unfoldable pub record_success : ℕ → CircuitBreaker → CircuitBreaker
unfolding current_state succeeded_request
record_success now b = let b' = current_state now b in succeeded_request b'.state b'

-- A call of a method, with the readings of the clock that it makes.
pub data Event : Type 0 where
  read : ℕ → Event
  allow : ℕ → Event
  failure : ℕ → ℕ → Event
  success : ℕ → Event

unfoldable pub step : CircuitBreaker → Event → CircuitBreaker
unfolding current_state allow_request record_failure record_success
step b (read now) = current_state now b
step b (allow now) = (allow_request now b).0
step b (failure now later) = record_failure now later b
step b (success now) = record_success now b

unfoldable pub run : CircuitBreaker → List Event → CircuitBreaker
run b [] = b
run b (e ∷ events) = run (step b e) events
