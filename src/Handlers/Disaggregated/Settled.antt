-- ===== src/Handlers/Disaggregated/Settled.antt =====
-- xpyd/routes/completions.py: a request that is served by two instances leaves the counts as they
-- were.
use micro_pdproxy.Base.{
  ℕ, ◌+◌, String, ◌≡◌, refl, sym, ap, ◌∙◌, inl, inr, Bool, true, false, not, Option, none, some,
  arith, ◌==◌, Result, ok, raise, Result-cases, if-intro, Error,
}
use micro_pdproxy.Base.Action.{Action}
use micro_pdproxy.Registry.{InstanceRegistry}
use micro_pdproxy.Proxy.{Proxy, schedule, truthy}
use micro_pdproxy.Proxy.Policies.{World}
use micro_pdproxy.Proxy.Bookings.{active, known_in, booked, schedule_lem}
use micro_pdproxy.Handlers.Aggregated.{Response}
use micro_pdproxy.Handlers.Disaggregated.{
  Job, Generator, is_started, PrefillAnswer, is_answer, reserved, handle_disaggregated,
  or_internal_error, internal_error, Demand,
}
use micro_pdproxy.Handlers.Transfer.{is_undisturbed}
use micro_pdproxy.Handlers.Disaggregated.Counts.{reserved-active}
use micro_pdproxy.Handlers.Session.Balanced.{blank, all_known-++, due_side, Balanced}
use micro_pdproxy.Proxy.Releases.{all_known}
use micro_pdproxy.Reservation.{is_none, reserve}

-- Neither an exception nor an instance without a name.
abbrev pub fine : Result (Option String) → Bool
fine (raise e) = false
fine (ok none) = true
fine (ok (some x)) = not (x == "")

fine-blank : (x : Option String) → fine (ok x) ≡ true → blank x ≡ false
fine-blank none h = refl
fine-blank (some x) h = ground arith

booked-due : (x : Option String) (a : String) → booked a (ok x) ≡ due_side (is_none x) x a
booked-due none a = refl
booked-due (some x) a = refl

chosen_known :
    (x : Option String) (o : Option InstanceRegistry)
    → ((i : String) → x ≡ some i → known_in i o ≡ true)
    → all_known (truthy x) o ≡ true
chosen_known none o h = refl
chosen_known (some i) o h =
    if-intro (λ names. all_known names o ≡ true) (i == "") refl (ground (arith, h i refl))

-- What both schedulings booked is what the reservation is to release.
pub reserve-Balanced :
    (w1 w2 : World) (d e : Demand) (p : Proxy) (r : InstanceRegistry) (a : String)
    (x y : Option String) (len : ℕ)
    → p.registry ≡ some r
    → (schedule w1 true d p).1 ≡ ok x
    → (schedule w2 false e (schedule w1 true d p).0).1 ≡ ok y
    → fine (ok x) ≡ true
    → fine (ok y) ≡ true
    → Balanced a (active a p) (record {
      proxy = (schedule w2 false e (schedule w1 true d p).0).0;
      reservation = reserve x y len;
    })
unfolding reserve
reserve-Balanced w1 w2 d e p r a x y len h first second fx fy =
    let p1 = (schedule w1 true d p).0 in
    let p2 = (schedule w2 false e p1).0 in
    let (has1, counts1, stays1, knows1) = schedule_lem w1 true d p r h a in
    let (r1, h1) = has1 in
    let (has2, counts2, stays2, knows2) = schedule_lem w2 false e p1 r1 h1 a in
    let counts : active a p2 ≡ active a p + (due_side (is_none x) x a + due_side (is_none y) y a) =
      ground (
        arith,
        counts1,
        counts2,
        ap (booked a) first,
        ap (booked a) second,
        booked-due x a,
        booked-due y a,
      ) in
    let known_x : all_known (truthy x) p2.registry ≡ true = chosen_known x p2.registry (λ i same.
      (schedule_lem w2 false e p1 r1 h1 i).2
        ((schedule_lem w1 true d p r h i).3 (first ∙ ap ok same))) in
    let known_y : all_known (truthy y) p2.registry ≡ true =
      chosen_known y p2.registry
        (λ i same. (schedule_lem w2 false e p1 r1 h1 i).3 (second ∙ ap ok same)) in
    (
      (counts, all_known-++ (truthy x) (truthy y) p2.registry ∙ ground (arith, known_x, known_y)),
      fine-blank x fx,
      fine-blank y fy,
    )

answered_ok :
    (m : Proxy × Result (Option String)) (f : Option String → Action Proxy Response)
    (o : Option String)
    → m.1 ≡ ok o
    → or_internal_error m f ≡ f o m.0
answered_ok (p, r) f o h = ap (λ x. or_internal_error (p, x) f) h

answered_raise :
    (m : Proxy × Result (Option String)) (f : Option String → Action Proxy Response) (e : Error)
    → m.1 ≡ raise e
    → or_internal_error m f ≡ (m.0, ok internal_error)
answered_raise (p, r) f e h = ap (λ x. or_internal_error (p, x) f) h

not_fine : (m : Result (Option String)) (e : Error) → m ≡ raise e → fine m ≡ true → ⊥
not_fine m e h k = ground arith

-- A request that is served by a prefill and a decode instance, from its scheduling to the end of its
-- response, leaves the number of active requests of every instance as it was, in every mode: where no instance is found, where the prefill instance fails or answers nonsense,
-- where the decode instance fails or the client leaves, whatever the generator releases itself, and
-- whatever the policy. The proxy has a registry, neither scheduling raises or returns an instance
-- with an empty address, the task is not cancelled before the response is there, neither while the
-- prefill instance works nor where the request is registered with the ZMQ listener, waits there for
-- its notifications or is discarded, and the client asks for the response at least once.
pub handle_disaggregated-active :
    (w1 w2 w3 : World) (j : Job) (g : Generator) (answer : PrefillAnswer) (p : Proxy)
    (r : InstanceRegistry) (a : String)
    → p.registry ≡ some r
    → fine (schedule w1 true (record j.demand { max_tokens = 1 }) p).1 ≡ true
    → fine
        (schedule w2 false j.demand (schedule w1 true (record j.demand { max_tokens = 1 }) p).0).1
      ≡ true
    → is_answer answer ≡ true
    → is_undisturbed j.mode j.zmq_state ≡ true
    → is_started g.reading ≡ true
    → active a (handle_disaggregated w1 w2 w3 j g answer p).0 ≡ active a p
unfolding handle_disaggregated
handle_disaggregated-active w1 w2 w3 j g answer p r a h fine1 fine2 good calm started =
    let d = record j.demand { max_tokens = 1 } in
    let m1 = schedule w1 true d p in
    let m2 = schedule w2 false j.demand m1.0 in
    elim (Result-cases m1.1) [
      | inr (e, failed) ↦ absurd (not_fine m1.1 e failed fine1)
      | inl (x, first) ↦ elim (Result-cases m2.1) [
        | inr (e, failed) ↦ absurd (not_fine m2.1 e failed fine2)
        | inl (y, second) ↦
            let after = λ (prefill : Option String) (q : Proxy).
              or_internal_error (schedule w2 false j.demand q)
                (λ decode. reserved w3 j g answer prefill decode) in
            ap (λ (t : Proxy × Result Response). active a t.0)
              (answered_ok m1 after x first
                ∙ answered_ok m2 (λ decode. reserved w3 j g answer x decode) y second)
            ∙ reserved-active w3 a (active a p) j g answer x y m2.0 started good calm (
                reserve-Balanced w1 w2 d j.demand p r a x y j.demand.request_len h first second
                  (ap fine (sym first) ∙ fine1) (ap fine (sym second) ∙ fine2))
      ]
    ]

-- If the scheduling of the decode instance raises, the request stays counted on the prefill instance
-- that was scheduled for it: its number of active requests is one more than before, although the
-- client gets an error. The proxy has a registry.
pub unreserved_counted :
    (w1 w2 w3 : World) (j : Job) (g : Generator) (answer : PrefillAnswer) (p : Proxy)
    (r : InstanceRegistry) (a : String) (e : Error)
    → p.registry ≡ some r
    → (schedule w1 true (record j.demand { max_tokens = 1 }) p).1 ≡ ok (some a)
    → (schedule w2 false j.demand (schedule w1 true (record j.demand { max_tokens = 1 }) p).0).1
      ≡ raise e
    → active a (handle_disaggregated w1 w2 w3 j g answer p).0 ≡ active a p + 1
unfolding handle_disaggregated
unreserved_counted w1 w2 w3 j g answer p r a e h first second =
    let d = record j.demand { max_tokens = 1 } in
    let m1 = schedule w1 true d p in
    let m2 = schedule w2 false j.demand m1.0 in
    let (has1, counts1, stays1, knows1) = schedule_lem w1 true d p r h a in
    let (r1, h1) = has1 in
    let (has2, counts2, stays2, knows2) = schedule_lem w2 false j.demand m1.0 r1 h1 a in
    let after = λ (prefill : Option String) (q : Proxy).
      or_internal_error (schedule w2 false j.demand q)
        (λ decode. reserved w3 j g answer prefill decode) in
    ap (λ (t : Proxy × Result Response). active a t.0)
      (answered_ok m1 after (some a) first
        ∙ answered_raise m2 (λ decode. reserved w3 j g answer (some a) decode) e second)
    ∙ ground (arith, counts1, counts2, ap (booked a) first, ap (booked a) second)
