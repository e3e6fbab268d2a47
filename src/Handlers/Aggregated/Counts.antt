-- ===== src/Handlers/Aggregated/Counts.antt =====
-- xpyd/routes/completions.py: a request to an aggregated instance is counted off exactly once.
use micro_pdproxy.Base.{
  ℕ, ◌+◌, ◌-◌, String, ◌≡◌, refl, ap, ◌∙◌, inl, inr, Bool, true, false, Option, none, some, [], ◌∷◌,
  arith, if◌then◌else◌, Result, ok, raise, ltb, Result-cases, value_error, runtime_error,
}
use micro_pdproxy.Base.Action.{
  Action, resume, resume_keeps, resume_ok, recover, ◌>>◌, return, fail, lift,
}
use micro_pdproxy.Registry
use micro_pdproxy.Registry.{InstanceRegistry, get_active_requests}
use micro_pdproxy.Proxy.{Proxy, Demand}
use micro_pdproxy.Proxy.Policies.{World}
use micro_pdproxy.Proxy.Bookings.{active, booked, known_in}
use micro_pdproxy.Proxy.Releases.{
  Counted, with_registry_ok, record_success-Holds, record_failure-Holds,
}
use micro_pdproxy.Handlers.Upstream.{
  Answer, answered, undecodable, http_error, other_error, cancelled, Python, status_code,
}
use micro_pdproxy.Registry.Counts.{
  known, one_if, success_total, failure_total, decrement_total, decrement-active, decrement-known,
}
use micro_pdproxy.Proxy.Aggregated.{schedule_aggregated_completion}
use micro_pdproxy.Handlers.Aggregated.{
  report, failed, Json, respond, JsonResponse, error_response, proxy_error, non_streaming, wrapped,
  handle_aggregated_completion, Upstream, Reading, starts, ends, forward, schedule_aggregated,
  streamed, finished, whole, closed, json, disconnected, broken, never_started, serve,
}
use micro_pdproxy.Proxy.Aggregated.Bookings.{schedule_aggregated_lem}

-- A known instance is found.
known_some :
    (i : String) (o : Option InstanceRegistry)
    → known_in i o ≡ true
    → (r : InstanceRegistry) × (o ≡ some r)
known_some i none h = absurd (ground arith)
known_some i (some r) h = (r, refl)

module _ (w : World) (a i : String) where
  -- The count of `a` where `i` is known.
  abbrev Has : ℕ → Proxy → Type 0
  Has n p = Counted a n (i ∷ []) p

  known_of : (n : ℕ) (p : Proxy) → Has n p → known_in i p.registry ≡ true
  known_of n p (c, k) = ground arith

  release-Has :
      (n : ℕ) (p : Proxy)
      → Has n p
      → ((schedule_aggregated_completion i p).1 ≡ ok tt)
        × Has (n - one_if i a) (schedule_aggregated_completion i p).0
  unfolding schedule_aggregated_completion
  release-Has n p c =
      let (r, there) = known_some i p.registry (known_of n p c) in
      let (r', done) = decrement_total i r (ground (arith, known_of n p c)) in
      let stepped = with_registry_ok (Registry.decrement_active_requests i) p r r' there done in
      (
        ap (λ (m : Proxy × Result Unit). m.1) stepped,
        rw stepped (
          ground (arith, decrement-active i a r r' done),
          ground (arith, known_of n p c, decrement-known i i r r' done),
        ),
      )

  report-Has :
      (n : ℕ) (p : Proxy) (success : Bool)
      → Has n p
      → ((report w i success p).1 ≡ ok tt) × Has n (report w i success p).0
  report-Has n p true c =
      let (r, there) = known_some i p.registry (known_of n p c) in
      let (r', done) = success_total (w.clock i) i r (ground (arith, known_of n p c)) in
      (
        ap (λ (m : Proxy × Result Unit). m.1)
            (with_registry_ok (Registry.record_success (w.clock i) i) p r r' there done),
        record_success-Holds w a n (i ∷ []) i p c,
      )
  report-Has n p false c =
      let (r, there) = known_some i p.registry (known_of n p c) in
      let (r', done) = failure_total (w.clock i) (w.clock i) i r (ground (arith, known_of n p c)) in
      (
        ap (λ (m : Proxy × Result Unit). m.1)
            (with_registry_ok (Registry.record_failure (w.clock i) (w.clock i) i) p r r' there
              done),
        record_failure-Holds w a n (i ∷ []) i p c,
      )

  failed-Has :
      (n : ℕ) (p : Proxy) (message : String) (code : ℕ)
      → Has n p
      → Has (n - one_if i a) (failed w i message code p).0
  failed-Has n p message code c =
      resume_keeps (Has (n - one_if i a)) (schedule_aggregated_completion i p)
        (λ u. report w i false >> return (error_response message proxy_error code))
        (release-Has n p c).1
        (λ u q k.
          resume_keeps (Has (n - one_if i a)) (report w i false q)
            (λ v. return (error_response message proxy_error code))
            (report-Has (n - one_if i a) q false k).1 (λ v s d. d))

  -- The answer is returned, if it can be rendered.
  respond_ok :
      (py : Python) (n : ℕ) (p : Proxy) (body : Json) (code : ℕ)
      → py.renders body ≡ true
      → status_code py body ≡ ok code
      → Has n p
      → (q : Proxy) × (respond w py i body p
          ≡ (q, ok (record { content = body; status_code = code })))
        × Has (n - one_if i a) q
  respond_ok py n p body code renders found c =
      let (off, counted) = release-Has n p c in
      let q = (schedule_aggregated_completion i p).0 in
      let (reported, kept) = report-Has (n - one_if i a) q (ltb code 400) counted in
      let answer : Action Proxy JsonResponse =
        (if py.renders body
          then return (record { content = body; status_code = code })
          else fail value_error) in
      (
        (report w i (ltb code 400) q).0,
        rw found (
            resume_ok (schedule_aggregated_completion i p) tt
              (λ u. report w i (ltb code 400) >> answer) off
            ∙ (resume_ok (report w i (ltb code 400) q) tt (λ u. answer) reported
                ∙ rw renders refl)),
        kept,
      )

  respond-Has :
      (py : Python) (n : ℕ) (p : Proxy) (body : Json)
      → py.renders body ≡ true
      → Has n p
      → Has
          (n - one_if i a)
          (recover (respond w py i body p) (λ e. failed w i "Internal proxy error" 500)).0
  respond-Has py n p body renders c = elim (Result-cases (status_code py body)) [
    | inl (code, found) ↦
        let (q, done, counted) = respond_ok py n p body code renders found c in rw done counted
    | inr (e, refused) ↦ rw refused (failed-Has n p "Internal proxy error" 500 c)
  ]

  -- An answer that cannot be rendered is an exception behind the end of the request.
  respond_unrendered :
      (py : Python) (n : ℕ) (p : Proxy) (body : Json) (code : ℕ)
      → py.renders body ≡ false
      → status_code py body ≡ ok code
      → Has n p
      → (q : Proxy) × (respond w py i body p ≡ (q, raise value_error)) × Has (n - one_if i a) q
  respond_unrendered py n p body code renders found c =
      let (off, counted) = release-Has n p c in
      let q = (schedule_aggregated_completion i p).0 in
      let (reported, kept) = report-Has (n - one_if i a) q (ltb code 400) counted in
      let answer : Action Proxy JsonResponse =
        (if py.renders body
          then return (record { content = body; status_code = code })
          else fail value_error) in
      (
        (report w i (ltb code 400) q).0,
        rw found (
            resume_ok (schedule_aggregated_completion i p) tt
              (λ u. report w i (ltb code 400) >> answer) off
            ∙ (resume_ok (report w i (ltb code 400) q) tt (λ u. answer) reported
                ∙ rw renders refl)),
        kept,
      )

  wrapped-Has :
      (n : ℕ) (p : Proxy) (reading : Reading)
      → (starts reading ≡ true)
      → Has n p
      → Has (n - one_if i a) (wrapped w i reading p).0
  unfolding wrapped
  wrapped-Has n p finished h c =
      resume_keeps (Has (n - one_if i a)) (schedule_aggregated_completion i p)
        (λ u. report w i true) (release-Has n p c).1
        (λ u q k. (report-Has (n - one_if i a) q true k).1)
  wrapped-Has n p closed h c =
      resume_keeps (Has (n - one_if i a)) (schedule_aggregated_completion i p)
        (λ u. report w i true) (release-Has n p c).1
        (λ u q k. (report-Has (n - one_if i a) q true k).1)
  wrapped-Has n p disconnected h c = (release-Has n p c).1
  wrapped-Has n p broken h c =
      let (reported, kept) = report-Has n p false c in
      let q = (report w i false p).0 in
      rw (resume_ok (report w i false p) tt (λ u. fail runtime_error) reported) (
        resume_keeps (Has (n - one_if i a)) (schedule_aggregated_completion i q)
          (λ u. lift (raise runtime_error)) (release-Has n q kept).1 (λ u s k. k))
  wrapped-Has n p never_started h c = absurd (ground arith)

  forward-Has :
      (py : Python) (n : ℕ) (p : Proxy) (upstream : Upstream)
      → ends py upstream ≡ true
      → Has n p
      → Has (n - one_if i a) (forward w py i upstream p).0
  unfolding non_streaming
  forward-Has py n p (streamed reading) h c = wrapped-Has n p reading h c
  forward-Has py n p (whole answer) h c =
      resume_keeps (Has (n - one_if i a)) (non_streaming w py i answer p)
        (λ response. return (json response)) (go answer h) (λ response q k. k)
    where
      go :
          (answer : Answer)
          → ends py (whole answer) ≡ true
          → Has (n - one_if i a) (non_streaming w py i answer p).0
      go (answered body) h = respond-Has py n p body h c
      go undecodable h = failed-Has n p "Internal proxy error" 500 c
      go (http_error code detail) h = failed-Has n p detail code c
      go other_error h = failed-Has n p "Internal proxy error" 500 c
      go cancelled h = absurd (ground arith)

served_lem :
    (later : World) (py : Python) (model : String) (upstream : Upstream) (a : String) (n : ℕ)
    (m : Proxy × Result (Option String))
    → ends py upstream ≡ true
    → active a m.0 ≡ n + booked a m.1
    → ((i : String) → m.1 ≡ ok (some i) → known_in i m.0.registry ≡ true)
    → active a (resume m (serve later py model upstream)).0 ≡ n
served_lem later py model upstream a n (p, raise e) good counts known = ground arith
served_lem later py model upstream a n (p, ok none) good counts known = ground arith
served_lem later py model upstream a n (p, ok (some i)) good counts known =
    let after =
      forward-Has later a i py (n + one_if i a) p upstream good
        (counts, ground (arith, known i refl)) in
    after.0 ∙ omega arith

-- A request to an aggregated instance, from its scheduling to the end of its response, leaves the
-- number of active requests of every instance as it was: on every path, whether the answer is
-- streamed or not, an error or not, and when the client leaves. The proxy has a registry, the task
-- is not cancelled before the answer has come, the client asks for the stream at least once, and an
-- answer that is not streamed can be rendered again.
pub handle_aggregated_completion-active :
    (w later : World) (py : Python) (d : Demand) (upstream : Upstream) (p : Proxy)
    (r : InstanceRegistry) (a : String)
    → p.registry ≡ some r
    → ends py upstream ≡ true
    → active a (handle_aggregated_completion w later py d upstream p).0 ≡ active a p
unfolding handle_aggregated_completion
handle_aggregated_completion-active w later py d upstream p r a h good =
    served_lem later py d.model upstream a (active a p) (schedule_aggregated w d p) good
      (schedule_aggregated_lem w d p r a h).1 (λ i. (schedule_aggregated_lem w d p r i h).2)

-- An answer of a known instance that has a status, but that JSONResponse cannot render, is counted
-- off twice: two active requests less on the instance, unless there are fewer, in place of one.
pub unrendered_twice :
    (w : World) (py : Python) (i : String) (p : Proxy) (body : Json) (code : ℕ)
    → known_in i p.registry ≡ true
    → py.renders body ≡ false
    → status_code py body ≡ ok code
    → active i (non_streaming w py i (answered body) p).0 ≡ active i p - 1 - 1
unfolding non_streaming
unrendered_twice w py i p body code known unrendered found =
    let (q, done, counted) =
      respond_unrendered w i i py (active i p) p body code unrendered found
        (refl, ground (arith, known)) in
    let after = failed-Has w i i (active i p - one_if i i) q "Internal proxy error" 500 counted in
    rw done (after.0 ∙ ground arith)
