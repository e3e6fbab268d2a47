-- ===== src/Proxy/RoundTrip.antt =====
-- xpyd/proxy.py: a request that is scheduled on a prefill and a decode instance, and its end.
use micro_pdproxy.Base.{ℕ, String, ◌≡◌, refl, ap, ◌∙◌, true, false, some, [], ◌∷◌, arith, ◌==◌, ok}
use micro_pdproxy.Registry.{InstanceRegistry}
use micro_pdproxy.Proxy.Policies.{World}
use micro_pdproxy.Proxy.Bookings.{active, schedule_lem, booked}
use micro_pdproxy.Proxy.{Demand, named, Proxy, schedule, exception_handler}
use micro_pdproxy.Proxy.Releases.{all_known, exception_handler-Counted, released}

named_both :
    (a b : String)
    → (a == "") ≡ false
    → (b == "") ≡ false
    → named (some a) (some b) ≡ (a ∷ (b ∷ []))
named_both a b x y = ground arith

-- Scheduling a request on a prefill and then on a decode instance, and then calling
-- `exception_handler` for both, gives back the number of active requests of every instance, whatever
-- the policy, and whether its bookkeeping raises or not. The proxy has a registry, both schedulings
-- found an instance, and no address is empty.
pub exception_handler-schedule :
    (w1 w2 w3 : World) (d e : Demand) (p : Proxy) (r : InstanceRegistry) (a b : String)
    (req_len : ℕ) (c : String)
    → p.registry ≡ some r
    → (schedule w1 true d p).1 ≡ ok (some a)
    → (schedule w2 false e (schedule w1 true d p).0).1 ≡ ok (some b)
    → (a == "") ≡ false
    → (b == "") ≡ false
    → active c
        (exception_handler w3
          (some a)
          (some b)
          req_len
          (schedule w2 false e (schedule w1 true d p).0).0).0
      ≡ active c p
exception_handler-schedule w1 w2 w3 d e p r a b req_len c h first second x y =
    let p1 = (schedule w1 true d p).0 in
    let p2 = (schedule w2 false e p1).0 in
    let (has1, counts1, stays1, knows1) = schedule_lem w1 true d p r h c in
    let (hasa, countsa, staysa, knowsa) = schedule_lem w1 true d p r h a in
    let (r1, h1) = has1 in
    let (has2, counts2, stays2, knows2) = schedule_lem w2 false e p1 r1 h1 c in
    let (has3, countsb, staysb, knowsb) = schedule_lem w2 false e p1 r1 h1 b in
    let (has4, counts4, stays4, knows4) = schedule_lem w2 false e p1 r1 h1 a in
    let (r2, h2) = has2 in
    let known : all_known (named (some a) (some b)) p2.registry ≡ true =
      ap (λ names. all_known names p2.registry) (named_both a b x y)
      ∙ ground (arith, stays4 (knowsa first), knowsb second) in
    (exception_handler-Counted w3 (some a) (some b) req_len p2 r2 c (active c p2) [] h2 known
      (refl, refl)).0
    ∙ (ap (λ names. released names c (active c p2)) (named_both a b x y)
        ∙ ground (arith, counts1, counts2, ap (booked c) first, ap (booked c) second))
