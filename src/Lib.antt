-- ===== src/Lib.antt =====
-- MicroPDProxy: a proxy that splits the requests for a language model between prefill and decode
-- instances (or sends them to aggregated ones). This library models the parts of the package
-- `xpyd` that decide where a request goes and what is remembered about the instances.
--
-- The parts, by file:
--   * CircuitBreaker: xpyd/circuit_breaker.py, one breaker per instance, a state machine with the
--     states closed, opened (the source's OPEN) and half_open.
--   * Registry: xpyd/registry.py, the instances by address, each with its status, its count of
--     active requests and its breaker. The schedulers ask it for the available instances.
--   * Scheduler.RoundRobin, Scheduler.LoadBalanced, Scheduler.PowerOfTwo, Scheduler.ConsistentHash and
--     Scheduler.CacheAware: the policies of xpyd/scheduler that choose an instance. Scheduler.Ring
--     has what a hash ring promises, as points on a circle with owners.
--   * Resilience: xpyd/resilience.py, the retries of a request on other instances.
--   * Reservation: `_RequestReservation` of xpyd/routes/completions.py, which releases what a
--     scheduler booked for a request.
--   * Streams: the two generators of xpyd/proxy.py that join the streams of a prefill and a decode
--     instance and release the instances.
--   * HealthMonitor: xpyd/health_monitor.py, whose probes mark instances of the registry.
--   * Zmq: xpyd/zmq_notifications.py, the notifications counted for each active request.
--   * Discovery: xpyd/discovery.py, which instances answer, when the proxy is ready, and the models
--     found, which it writes to the registry.
--   * Proxy: xpyd/proxy.py, the state of the class `Proxy` that the handlers share: tokenizers
--     (ensure_tokenizer), the scheduling of a request with the registry's counts of active requests
--     (schedule, schedule_completion, exception_handler) and that of aggregated instances
--     (Proxy.Aggregated). Proxy.Policies has the five policies as one data type, and Proxy.Members the
--     instances that join and leave (add_instance, drain_and_remove_instance); the lists of prefill and
--     decode instances are one object for the proxy, its scheduler and the discovery.
--   * Handlers: the handlers of xpyd/routes/completions.py over that state. Handlers.Disaggregated is
--     `handle_completion` from the scheduling on, Handlers.Transfer the requests that it sends in
--     each mode, Handlers.Session the reservation with the proxy behind it, Handlers.Aggregated
--     `_handle_aggregated_completion`, and Handlers.Upstream what that makes of an answer.
--   * Completions: the functions of xpyd/routes/completions.py that check, read and build requests and
--     convert answers, and the token lengths of xpyd/utils.py. Json has the values that they work on,
--     Errors the responses of xpyd/errors.py.
--   * Base: the shared names, Boolean tests, lists, texts, sorting, results and Python's `dict`.
--   * Examples: concrete inputs for the theorems.
--
-- State is a record with the fields of the class, without the leading underscore, and a method is a
-- function from the state to the state, or to `Result` where it raises; a method that changes state
-- before it raises gives back the state with the error. Readings of the clock, the answers of
-- instances, hash values and random draws are arguments, so the theorems hold for any of them. Times
-- are whole ticks; the source has floats, of which it uses the order and the sum. Locks are left
-- out: a method that holds its lock is one step. Where a coroutine awaits between two changes, these
-- are two steps, and the theorems are about any sequence of steps. Python's integers are ℕ where the
-- code keeps them from going below zero, and ℤ otherwise.
--
-- Bounds: the loop of the round-robin policy runs on fuel, one round for each item of the cycle and
-- one more, which schedule-Chosen shows to be enough; the other loops are by recursion on a list or
-- on a number that the source counts up to. The retries recurse on the attempts that are left.
--
-- Exceptions are values. `Result` is a call that changes no state; `Action`, of Base.Action, gives back
-- the state, as the call left it, beside the value or the exception. A `World` has what a call of
-- the proxy gets from outside: one reading of the clock for each instance, the random draw, and the
-- hashes. The handlers take what the instances answer and how the client reads as arguments, and a
-- handler's theorem covers the reading of the response, which runs behind the handler itself. A
-- request is followed by itself: other requests in between are other steps on the same state. Where an
-- instance is drained, they are functions on the state, one for each sleep up to the deadline.
--
-- Not modelled: HTTP itself and the wiring of the parts, the validation of an instance that joins,
-- the other routes, the generators of the mode zmq, the configuration and its tools,
-- metrics, the topology's expansion, the policy registry, what a tokenizer does, the length of a
-- backoff, logging, an exception of the callback for a discovered model, and the generators of
-- Streams without an owner of their callbacks. A limit of tokens that is negative counts as none
-- when a request is scheduled, and one that is no number is left out.
pub mod Base
pub mod CircuitBreaker
pub mod Registry
pub mod Json
pub mod Errors
pub mod Completions
pub mod Proxy
pub mod Handlers
pub mod Scheduler
pub mod Resilience
pub mod Reservation
pub mod Zmq
pub mod Discovery
pub mod Streams
pub mod HealthMonitor
mod Examples
