-- ===== src/CircuitBreaker/Window.antt =====
-- xpyd/circuit_breaker.py: the purged deque of failures against a history that forgets nothing.
use micro_pdproxy.Base.{
  ℕ, ◌+◌, ◌≤◌, ◌≡◌, refl, not, Bool, true, false, List, [], ◌∷◌, ◌++◌, length, arith, ltb, leb,
  if◌then◌else◌, Bool-cases, inl, inr,
}
use micro_pdproxy.CircuitBreaker.{
  CircuitBreaker, closed, is_closed, new, purge, open_at, Event, failure, step, run,
}

-- The failures that lie in the window which ends now.
unfoldable pub recent : ℕ → ℕ → List ℕ → List ℕ
recent window now [] = []
recent window now (t ∷ ts) =
    let rest = recent window now ts in if ltb (t + window) now then rest else t ∷ rest

-- `ts` ascends from `low` to `high`.
abbrev pub Ascending : ℕ → List ℕ → ℕ → Type 0
Ascending low [] high = low ≤ high
Ascending low (t ∷ ts) high = (low ≤ t) × Ascending t ts high

Ascending-weaken :
    (low low' : ℕ) (ts : List ℕ) (high : ℕ)
    → low' ≤ low
    → Ascending low ts high
    → Ascending low' ts high
Ascending-weaken low low' [] high p h = omega arith
Ascending-weaken low low' (t ∷ ts) high p h = (omega arith, h.1)

Ascending-append :
    (low : ℕ) (ts : List ℕ) (high t : ℕ)
    → high ≤ t
    → Ascending low ts high
    → Ascending low (ts ++ (t ∷ [])) t
Ascending-append low [] high t p h = (omega arith, omega arith)
Ascending-append low (s ∷ ts) high t p h = (h.0, Ascending-append s ts high t p h.1)

Ascending-recent :
    (window now low : ℕ) (ts : List ℕ) (high : ℕ)
    → Ascending low ts high
    → Ascending low (recent window now ts) high
unfolding recent
Ascending-recent window now low [] high h = h
Ascending-recent window now low (t ∷ ts) high h = elim (Bool-cases (ltb (t + window) now)) [
  | inl old ↦ rw old (
      Ascending-weaken t low (recent window now ts) high h.0
        (Ascending-recent window now t ts high h.1))
  | inr new ↦ rw new (h.0, Ascending-recent window now t ts high h.1)
]

recent_all :
    (window now low : ℕ) (ts : List ℕ) (high : ℕ)
    → Ascending low ts high
    → now ≤ low + window
    → recent window now ts ≡ ts
unfolding recent
recent_all window now low [] high h p = refl
recent_all window now low (t ∷ ts) high h p = ground (arith, recent_all window now t ts high h.1)

pub purge-eq-recent :
    (window now low : ℕ) (ts : List ℕ) (high : ℕ)
    → Ascending low ts high
    → purge window now ts ≡ recent window now ts
unfolding purge recent
purge-eq-recent window now low [] high h = refl
purge-eq-recent window now low (t ∷ ts) high h =
    ground (arith, purge-eq-recent window now t ts high h.1, recent_all window now t ts high h.1)

recent-append :
    (window now : ℕ) (xs ys : List ℕ)
    → recent window now (xs ++ ys) ≡ recent window now xs ++ recent window now ys
unfolding recent
recent-append window now [] ys = refl
recent-append window now (x ∷ xs) ys = ground (arith, recent-append window now xs ys)

recent-recent :
    (window now later : ℕ) (ts : List ℕ)
    → now ≤ later
    → recent window later (recent window now ts) ≡ recent window later ts
unfolding recent
recent-recent window now later [] p = refl
recent-recent window now later (t ∷ ts) p = ground (arith, recent-recent window now later ts p)

-- Some failure of `ts`, which follow those of `seen`, is the last of `threshold` within a window.
unfoldable pub bursts : ℕ → ℕ → List ℕ → List ℕ → Bool
unfolding recent
bursts threshold window seen [] = false
bursts threshold window seen (t ∷ ts) =
    let rest = bursts threshold window (seen ++ (t ∷ [])) ts in
    if leb threshold (length (recent window t (seen ++ (t ∷ [])))) then true else rest

abbrev pub failures : List ℕ → List Event
failures [] = []
failures (t ∷ ts) = failure t t ∷ failures ts

failure_closed :
    (b : CircuitBreaker) (t low : ℕ)
    → b.state ≡ closed
    → Ascending 0 b.failure_timestamps low
    → low ≤ t
    → step b (failure t t) ≡ (
        let kept = recent b.window_duration t (b.failure_timestamps ++ (t ∷ [])) in
        if leb b.failure_threshold (length kept)
        then open_at t b
        else record b { failure_timestamps = kept })
unfolding step open_at
failure_closed b t low h a p = ground (
  arith,
  purge-eq-recent b.window_duration t 0 (b.failure_timestamps ++ (t ∷ [])) t
      (Ascending-append 0 b.failure_timestamps low t p a),
)

failure_not_closed :
    (b : CircuitBreaker) (t : ℕ)
    → is_closed b.state ≡ false
    → is_closed (step b (failure t t)).state ≡ false
unfolding step
failure_not_closed b t h = ground arith

failures_not_closed :
    (b : CircuitBreaker) (ts : List ℕ)
    → is_closed b.state ≡ false
    → is_closed (run b (failures ts)).state ≡ false
unfolding run
failures_not_closed b [] h = h
failures_not_closed b (t ∷ ts) h =
    failures_not_closed (step b (failure t t)) ts (failure_not_closed b t h)

run-failures_cons :
    (b : CircuitBreaker) (t : ℕ) (ts : List ℕ)
    → run b (failures (t ∷ ts)) ≡ run (step b (failure t t)) (failures ts)
unfolding run
run-failures_cons b t ts = refl

-- The deque `kept` answers like the whole history `seen`, from the time `low` on.
abbrev Agrees : ℕ → ℕ → List ℕ → List ℕ → Type 0
Agrees window low kept seen = (t : ℕ) → low ≤ t → recent window t kept ≡ recent window t seen

Agrees-append :
    (window low t : ℕ) (kept seen : List ℕ)
    → low ≤ t
    → Agrees window low kept seen
    → Agrees window t (recent window t (kept ++ (t ∷ []))) (seen ++ (t ∷ []))
Agrees-append window low t kept seen p h later q = rw (
  recent-recent window t later (kept ++ (t ∷ [])) q,
  recent-append window later kept (t ∷ []),
  recent-append window later seen (t ∷ []),
  h later (omega arith),
)

run-failures :
    (b : CircuitBreaker) (seen ts : List ℕ) (low high : ℕ)
    → b.state ≡ closed
    → Ascending 0 b.failure_timestamps low
    → Agrees b.window_duration low b.failure_timestamps seen
    → Ascending low ts high
    → is_closed (run b (failures ts)).state
      ≡ not (bursts b.failure_threshold b.window_duration seen ts)
unfolding bursts open_at
run-failures b seen [] low high h a g s = unfold run in rw h refl
run-failures b seen (t ∷ ts) low high h a g s =
    let kept = recent b.window_duration t (b.failure_timestamps ++ (t ∷ [])) in
    let same : recent b.window_duration t (seen ++ (t ∷ [])) ≡ kept = rw (
      recent-append b.window_duration t seen (t ∷ []),
      recent-append b.window_duration t b.failure_timestamps (t ∷ []),
      g t s.0,
    ) in
    rw (same, run-failures_cons b t ts, failure_closed b t low h a s.0)
      (elim (Bool-cases (leb b.failure_threshold (length kept))) [
        | inl full ↦ rw full (failures_not_closed (open_at t b) ts refl)
        | inr room ↦ rw room (
            run-failures (record b { failure_timestamps = kept }) (seen ++ (t ∷ [])) ts t high h
              (Ascending-recent b.window_duration t 0 (b.failure_timestamps ++ (t ∷ [])) t
                (Ascending-append 0 b.failure_timestamps low t s.0 a))
              (Agrees-append b.window_duration low t b.failure_timestamps seen s.0 g) s.1)
      ])

-- Failures at ascending times leave a new breaker closed exactly when none of them is the last of
-- `threshold` failures within a window: purging the deque forgets nothing that matters.
pub failures_trip :
    (threshold successes timeout window : ℕ) (ts : List ℕ) (high : ℕ)
    → Ascending 0 ts high
    → is_closed (run (new threshold successes timeout window) (failures ts)).state
      ≡ not (bursts threshold window [] ts)
unfolding new
failures_trip threshold successes timeout window ts high s =
    run-failures (new threshold successes timeout window) [] ts 0 high refl (omega arith)
      (λ t p. refl) s
