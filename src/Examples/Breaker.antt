-- ===== src/Examples/Breaker.antt =====
-- Concrete runs of the circuit breaker (xpyd/circuit_breaker.py): it trips at the second failure
-- within 60 ticks, stays open for 30, and closes after two good probes.
use micro_pdproxy.Base.{◌≡◌, refl, true, false, not, [], ◌∷◌, arith}
use micro_pdproxy.CircuitBreaker.{
  CircuitBreaker, failure, allow, success, read, new, run, is_closed, closed, allow_request,
  open_at, current_state,
}
use micro_pdproxy.CircuitBreaker.Invariant.{
  IsValid, new-IsValid, breaker_run-IsValid, opened_denies,
}
use micro_pdproxy.CircuitBreaker.Window.{failures, bursts, failures_trip}
use micro_pdproxy.CircuitBreaker.Probes.{asks, AllFalse, one_probe, probes, probes_close}

abbrev breaker : CircuitBreaker
breaker = new 2 2 30 60

breaker-IsValid : IsValid breaker
breaker-IsValid = new-IsValid 2 2 30 60 (omega arith) (omega arith)

abbrev tripped : CircuitBreaker
tripped = open_at 20 breaker

breaker_run-IsValid_example :
    IsValid (run breaker (failure 10 10 ∷ failure 20 20 ∷ read 55 ∷ success 56 ∷ []))
breaker_run-IsValid_example =
    breaker_run-IsValid breaker (failure 10 10 ∷ failure 20 20 ∷ read 55 ∷ success 56 ∷ [])
      breaker-IsValid

failures_trip_example :
    is_closed (run (new 2 2 30 60) (failures (10 ∷ 100 ∷ 120 ∷ []))).state
    ≡ not (bursts 2 60 [] (10 ∷ 100 ∷ 120 ∷ []))
failures_trip_example =
    failures_trip 2 2 30 60 (10 ∷ 100 ∷ 120 ∷ []) 120
      (omega arith, (omega arith, (omega arith, omega arith)))

opened_denies_example :
    (run tripped (read 30 ∷ allow 40 ∷ []) ≡ tripped)
    × ((allow_request 49 (run tripped (read 30 ∷ allow 40 ∷ []))).1 ≡ false)
unfolding new open_at
opened_denies_example =
    opened_denies tripped (read 30 ∷ allow 40 ∷ []) 49 refl (omega arith, (omega arith, tt))
      (omega arith)

one_probe_example :
    ((asks (allow_request 50 tripped).0 (51 ∷ 90 ∷ [])).0 ≡ (allow_request 50 tripped).0)
    × AllFalse (asks (allow_request 50 tripped).0 (51 ∷ 90 ∷ [])).1
unfolding new open_at allow_request current_state
one_probe_example = one_probe tripped 50 (51 ∷ 90 ∷ []) refl refl

tripped-IsValid : IsValid tripped
unfolding new open_at
tripped-IsValid = record {
  failures_positive = omega arith;
  successes_positive = omega arith;
  below_threshold = λ h. ground arith;
  cleared = λ h. refl;
  counting = λ h. omega arith;
  no_successes = λ h. refl;
  no_probe = λ h. refl;
}

probes_close_example :
    ((probes tripped ((50, 52) ∷ (60, 61) ∷ [])).0.state ≡ closed)
    × ((probes tripped ((50, 52) ∷ (60, 61) ∷ [])).1 ≡ true)
unfolding new open_at
probes_close_example =
    probes_close tripped 50 52 ((60, 61) ∷ []) tripped-IsValid refl (omega arith) refl
