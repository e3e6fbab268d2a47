-- ===== src/CircuitBreaker/Probes.antt =====
-- xpyd/circuit_breaker.py: the half-open state admits one probe at a time, and enough successful
-- probes close the breaker.
use micro_pdproxy.Base.{
  ℕ, ◌+◌, ◌≤◌, ◌<◌, ◌≡◌, refl, Bool, true, false, ◌&&◌, List, [], ◌∷◌, length, arith,
}
use micro_pdproxy.CircuitBreaker.{
  CircuitBreaker, closed, opened, half_open, allow_request, record_success,
}
use micro_pdproxy.CircuitBreaker.Invariant.{IsValid}

-- Requests that ask for admission at the given times, one after the other, and the answers.
unfoldable pub asks : CircuitBreaker → List ℕ → CircuitBreaker × List Bool
asks b [] = (b, [])
asks b (t ∷ ts) =
    let (b', answer) = allow_request t b in
    let (b'', answers) = asks b' ts in (b'', answer ∷ answers)

abbrev pub AllFalse : List Bool → Type 0
AllFalse [] = Unit
AllFalse (x ∷ xs) = (x ≡ false) × AllFalse xs

allow_pending :
    (b : CircuitBreaker) (t : ℕ)
    → b.state ≡ half_open
    → b.half_open_pending ≡ true
    → allow_request t b ≡ (b, false)
unfolding allow_request
allow_pending b t h p = ground arith

asks_pending :
    (b : CircuitBreaker) (ts : List ℕ)
    → b.state ≡ half_open
    → b.half_open_pending ≡ true
    → ((asks b ts).0 ≡ b) × AllFalse (asks b ts).1
unfolding asks
asks_pending b [] h p = (refl, tt)
asks_pending b (t ∷ ts) h p =
    let ih = asks_pending b ts h p in rw (allow_pending b t h p) (ih.0, (refl, ih.1))

grants_pending :
    (b : CircuitBreaker) (now : ℕ)
    → (allow_request now b).0.state ≡ half_open
    → (allow_request now b).1 ≡ true
    → (allow_request now b).0.half_open_pending ≡ true
unfolding allow_request
grants_pending b now h g = ground arith

-- When a half-open breaker has admitted a request, every further request is refused, however many
-- ask and whenever they ask, and the breaker stays as it is, until a result is recorded.
pub one_probe :
    (b : CircuitBreaker) (now : ℕ) (ts : List ℕ)
    → (allow_request now b).0.state ≡ half_open
    → (allow_request now b).1 ≡ true
    → ((asks (allow_request now b).0 ts).0 ≡ (allow_request now b).0)
      × AllFalse (asks (allow_request now b).0 ts).1
one_probe b now ts h g = asks_pending (allow_request now b).0 ts h (grants_pending b now h g)

-- Probes that succeed: each asks for admission at the first time and reports at the second. The
-- result says whether all were admitted.
unfoldable pub probes : CircuitBreaker → List (ℕ × ℕ) → CircuitBreaker × Bool
probes b [] = (b, true)
probes b ((asked, done) ∷ rest) =
    let (b', answer) = allow_request asked b in
    let (b'', all) = probes (record_success done b') rest in (b'', answer && all)

abbrev pub round : CircuitBreaker → ℕ → ℕ → CircuitBreaker
round b asked done = record_success done (allow_request asked b).0

round_half_open :
    (b : CircuitBreaker) (asked done : ℕ)
    → b.state ≡ half_open
    → b.half_open_pending ≡ false
    → b.half_open_successes + 1 < b.success_threshold
    → ((allow_request asked b).1 ≡ true)
      × ((round b asked done).state ≡ half_open)
      × ((round b asked done).half_open_pending ≡ false)
      × ((round b asked done).half_open_successes ≡ b.half_open_successes + 1)
      × ((round b asked done).success_threshold ≡ b.success_threshold)
unfolding allow_request record_success
round_half_open b asked done h p q = ground arith

round_last :
    (b : CircuitBreaker) (asked done : ℕ)
    → b.state ≡ half_open
    → b.half_open_pending ≡ false
    → b.success_threshold ≤ b.half_open_successes + 1
    → ((allow_request asked b).1 ≡ true) × ((round b asked done).state ≡ closed)
unfolding allow_request record_success
round_last b asked done h p q = ground arith

probes_half_open :
    (b : CircuitBreaker) (x : ℕ × ℕ) (rest : List (ℕ × ℕ))
    → b.state ≡ half_open
    → b.half_open_pending ≡ false
    → b.half_open_successes + length (x ∷ rest) ≡ b.success_threshold
    → ((probes b (x ∷ rest)).0.state ≡ closed) × ((probes b (x ∷ rest)).1 ≡ true)
unfolding probes
probes_half_open b (asked, done) [] h p n = ground (arith, round_last b asked done h p)
probes_half_open b (asked, done) (y ∷ rest) h p n =
    let now = round_half_open b asked done h p (omega arith) in
    let ih = probes_half_open (round b asked done) y rest now.1 now.2 (omega (arith, now)) in
    rw (now.0) ih

-- As `round` from the half-open breaker that an open one turns into.
round_opened :
    (b : CircuitBreaker) (asked : ℕ)
    → IsValid b
    → b.state ≡ opened
    → b.opened_at + b.timeout_duration ≤ asked
    → allow_request asked b
      ≡ allow_request asked (record b { state = half_open; half_open_successes = 0 })
unfolding allow_request
round_opened b asked v o h = ground arith

probes-cong :
    (b c : CircuitBreaker) (asked done : ℕ) (rest : List (ℕ × ℕ))
    → allow_request asked b ≡ allow_request asked c
    → probes b ((asked, done) ∷ rest) ≡ probes c ((asked, done) ∷ rest)
unfolding probes
probes-cong b c asked done rest e = rw e

-- An open breaker whose timeout has elapsed closes after as many successful probes as its success
-- threshold, each of which it admits.
pub probes_close :
    (b : CircuitBreaker) (asked done : ℕ) (rest : List (ℕ × ℕ))
    → IsValid b
    → b.state ≡ opened
    → b.opened_at + b.timeout_duration ≤ asked
    → length rest + 1 ≡ b.success_threshold
    → ((probes b ((asked, done) ∷ rest)).0.state ≡ closed)
      × ((probes b ((asked, done) ∷ rest)).1 ≡ true)
probes_close b asked done rest v o h n =
    let c : CircuitBreaker = record b { state = half_open; half_open_successes = 0 } in
    rw (probes-cong b c asked done rest (round_opened b asked v o h))
      (probes_half_open c (asked, done) rest refl (ground arith) (omega arith))
