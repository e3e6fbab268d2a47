-- ===== src/Examples/Requests.antt =====
-- Concrete runs of the retries (xpyd/resilience.py), of a request's reservation
-- (xpyd/routes/completions.py), of the notifications (xpyd/zmq_notifications.py) and of the
-- discovery (xpyd/discovery.py).
use micro_pdproxy.Base.{
  ℕ, ◌≡◌, refl, String, true, false, ◌&&◌, Option, none, some, List, [], ◌∷◌, ◌++◌, arith, contains,
  Distinct, ◌==◌, if◌then◌else◌, Result, ok, Error, value_error,
}
use micro_pdproxy.Base.Dict
use micro_pdproxy.Resilience.{ResilienceConfig, Response, execute}
use micro_pdproxy.Resilience.Attempts.{requests}
use micro_pdproxy.Resilience.Reports.{both, Excludes, execute-Distinct}
use micro_pdproxy.Reservation.{reserve}
use micro_pdproxy.Reservation.Once.{all, handle, calls, prefills, decodes, to_list, released_once}
use micro_pdproxy.Base.{ltb}
use micro_pdproxy.Streams.{Stream, p_first_token_generator, drop_first}
use micro_pdproxy.Streams.Releases.{
  take, yielded, prefill_releases, decode_releases, passes, p_first_token_generator_lem,
}
use micro_pdproxy.Zmq as Zmq
use micro_pdproxy.Zmq.{ZmqNotificationListener, proxy_notif, undecodable}
use micro_pdproxy.Zmq.Counts as Counts
use micro_pdproxy.Zmq.Counts.{registered, discarded, received, counted_all, run-counted}
use micro_pdproxy.Discovery as Discovery
use micro_pdproxy.Discovery.{is_ready, status}
use micro_pdproxy.Discovery.Ready as Ready
use micro_pdproxy.Discovery.Ready.{added, removed, answered, is_ready?, run-is_ready}
use micro_pdproxy.Discovery.Models as Models
use micro_pdproxy.Discovery.Models.{calls_once}
use micro_pdproxy.Registry as Registry

abbrev config : ResilienceConfig
config = record { enabled = true; max_retries = 2; retryable_status_codes = 503 ∷ [] }

-- "b" answers 200 and every other instance 503.
abbrev request : ℕ → String → Result Response
request attempt instance =
    ok (record { status_code = if instance == "b" then 200 else 503; is_streaming = false })

-- "b" unless it is excluded.
abbrev another : ℕ → List String → Result (Option String)
another attempt tried = ok (if contains tried "b" then none else some "b")

another-Excludes : Excludes another
another-Excludes attempt tried next h = ground arith

-- `on_success` raises.
abbrev loud : String → Response → Option Error
loud i r = some value_error

abbrev silent : String → Response → ℕ → Option Error
silent i r n = none

execute-Distinct_example :
    Distinct (requests (execute config (both loud silent) request another (ok "a")).0)
execute-Distinct_example =
    execute-Distinct config (both loud silent) request another (ok "a") another-Excludes

released_once_example :
    (prefills
        (calls
          ((handle (some "p") none none ∷ []) ++ (all ∷ (all ∷ [])))
          (reserve (some "p") (some "d") 9)).1
      ≡ to_list (some "p"))
    × (decodes
          (calls
            ((handle (some "p") none none ∷ []) ++ (all ∷ (all ∷ [])))
            (reserve (some "p") (some "d") 9)).1
        ≡ to_list (some "d"))
released_once_example =
    released_once (some "p") (some "d") 9 (handle (some "p") none none ∷ []) (all ∷ [])

init-IsValid : Counts.IsValid Zmq.init
unfolding Zmq.init Dict.has
init-IsValid = (λ k. refl, tt)

run-counted_example :
    (l' : ZmqNotificationListener) × (Counts.run
        (registered "r" ∷ received (proxy_notif "r") ∷ received undecodable ∷ discarded "r" ∷ [])
        Zmq.init
      ≡ some l')
    × Counts.IsValid l'
    × ((k : String)
        → Dict.get l'.counts k
          ≡ counted_all
              (registered "r"
                ∷ received (proxy_notif "r")
                ∷ received undecodable
                ∷ discarded "r"
                ∷ [])
              k
              (Dict.get Zmq.init.counts k))
run-counted_example =
    run-counted
      (registered "r" ∷ received (proxy_notif "r") ∷ received undecodable ∷ discarded "r" ∷ [])
      Zmq.init init-IsValid

run-is_ready_example :
    Ready.IsValid (
      Ready.run
        (removed "decode" "d" ∷ answered "d" "decode" (status 200) ∷ [])
        (Discovery.init [] ("d" ∷ []) []))
    × (is_ready (
          Ready.run
            (removed "decode" "d" ∷ answered "d" "decode" (status 200) ∷ [])
            (Discovery.init [] ("d" ∷ []) []))
        ≡ is_ready? (
            Ready.run
              (removed "decode" "d" ∷ answered "d" "decode" (status 200) ∷ [])
              (Discovery.init [] ("d" ∷ []) [])))
run-is_ready_example =
    run-is_ready (removed "decode" "d" ∷ answered "d" "decode" (status 200) ∷ []) [] ("d" ∷ []) []

abbrev registry : Registry.InstanceRegistry
registry = Registry.init true 1 2 30 60

calls_once_example :
    Distinct (
      Models.calls
        (Models.asked 5 "a" registry
          ∷ Models.answered "a" (Discovery.listed (some "m")) registry
          ∷ [])
        (Discovery.init [] [] []))
    × ((contains
            (Models.calls
              (Models.asked 5 "a" registry
                ∷ Models.answered "a" (Discovery.listed (some "m")) registry
                ∷ [])
              (Discovery.init [] [] []))
            "m"
          && contains (Discovery.init [] [] []).notified_models "m")
        ≡ false)
calls_once_example =
    calls_once
      (Models.asked 5 "a" registry
        ∷ Models.answered "a" (Discovery.listed (some "m")) registry
        ∷ [])
      (Discovery.init [] [] []) "m"

abbrev prefill : Stream
prefill = record { chunks = "p1" ∷ []; fails = false }

abbrev decode : Stream
decode = record { chunks = "d1" ∷ "d2" ∷ "d3" ∷ []; fails = true }

p_first_token_generator_lem_example :
    (yielded (p_first_token_generator 3 prefill decode)
      ≡ take 3 (prefill.chunks ++ (if prefill.fails then [] else drop_first decode.chunks)))
    × (prefill_releases (p_first_token_generator 3 prefill decode) ≡ (if ltb 0 3 then 1 else 0))
    × (decode_releases (p_first_token_generator 3 prefill decode)
        ≡ (if passes 3 prefill then 1 else 0))
p_first_token_generator_lem_example = p_first_token_generator_lem 3 prefill decode
