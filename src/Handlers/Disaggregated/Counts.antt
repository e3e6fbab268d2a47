-- ===== src/Handlers/Disaggregated/Counts.antt =====
-- xpyd/routes/completions.py: `handle_completion` counts off what it has scheduled, on every path.
use micro_pdproxy.Base.{
  ℕ, ◌+◌, String, ◌≡◌, refl, ◌∙◌, ◌⊎◌, inl, inr, true, false, Option, none, some, arith, Result, ok,
  raise, Error, http_exception, if-elim,
}
use micro_pdproxy.Base.Action.{Action, resume, resume_keeps, recover, finally, lift, fail, ◌>>◌}
use micro_pdproxy.Reservation.{reserve}
use micro_pdproxy.Reservation.Once.{call, all}
use micro_pdproxy.Proxy as Server
use micro_pdproxy.Proxy.{Proxy, named, schedule, truthy}
use micro_pdproxy.Proxy.Policies.{World}
use micro_pdproxy.Proxy.Bookings.{active}
use micro_pdproxy.Handlers.Aggregated.{Response, json, unavailable}
use micro_pdproxy.Handlers.Session.{Session, call_session, call_each, on_proxy, release_all_session}
use micro_pdproxy.Handlers.Session.Balanced.{Balanced, due_of}
use micro_pdproxy.Handlers.Session.Calls.{call-Balanced, call_each-Balanced, nothing_due}
use micro_pdproxy.Handlers.Transfer.{
  prefill_request, decode_request, is_cancelled, is_discard_cancelled, is_undisturbed, ZmqState,
}
use micro_pdproxy.Completions.Requests.{Mode, direct, nixl, zmq}
use micro_pdproxy.Handlers.Transfer.Safe.{Safe, prefill_request-Safe, decode_request-Safe}
use micro_pdproxy.Handlers.Disaggregated.{
  Job, Generator, Reading, over, disconnected, http_broken, broken, never_started, is_started,
  ending, PrefillAnswer, answered, http_error, cancelled, wrapped_generator, prefill_failed,
  after_prefill, body, outer, is_answer, respond_with, reserved, outer_result, undecodable,
}
use micro_pdproxy.Proxy.Releases.{all_known}

discard_calm :
    (mode : Mode) (z : ZmqState)
    → is_undisturbed mode z ≡ true
    → is_discard_cancelled mode z ≡ true
    → ⊥
discard_calm direct z h k = ground (arith, k)
discard_calm nixl z h k = ground (arith, k)
discard_calm zmq z h k = ground (arith, h, k)

module _ (w : World) (a : String) (n : ℕ) where
  -- Everything has been released.
  abbrev Done : Session → Type 0
  Done s = Balanced a n s × (due_of a s.reservation ≡ 0)

  Done-active : (s : Session) → Done s → active a s.proxy ≡ n
  Done-active s (b, none_due) = b.0.0 ∙ omega (arith, none_due)

  release_all-Done : (s : Session) → Balanced a n s → Done (release_all_session w s).0
  unfolding call_session call
  release_all-Done s b = (call-Balanced w a n all s b, nothing_due w a n s.reservation)

  -- A call of the proxy that keeps the counts.
  record_failure-Balanced :
      (prefill decode : Option String) (s : Session)
      → Balanced a n s
      → Balanced a n (on_proxy (Server.record_failure w prefill decode) s).0
  record_failure-Balanced prefill decode s (c, bp, bd) = (
    Server.Releases.record_failure-Counted w prefill decode s.proxy a (n + due_of a s.reservation)
        (named s.reservation.prefill_instance s.reservation.decode_instance) c,
    bp,
    bd,
  )

  -- Releasing everything, recording the failure and raising.
  failing-Done :
      (A : Type 0) (prefill decode : Option String) (e : Error) (s : Session)
      → Balanced a n s
      → Done
          ((release_all_session w
              >> (on_proxy (Server.record_failure w prefill decode) >> fail {A = A} e))
            s).0
  failing-Done A prefill decode e s b =
      resume_keeps Done (release_all_session w s)
        (λ u. on_proxy (Server.record_failure w prefill decode) >> fail e) (release_all-Done s b)
        (λ u t (k, d).
          resume_keeps Done (on_proxy (Server.record_failure w prefill decode) t) (λ v. fail e)
            (record_failure-Balanced prefill decode t k, d) (λ v x m. m))

  -- What a generator's reader leaves before the `finally`.
  ending-Balanced :
      (prefill decode : Option String) (reading : Reading) (s : Session)
      → Balanced a n s
      → Balanced a n (ending w prefill decode reading s).0
  ending-Balanced prefill decode over s b = b
  ending-Balanced prefill decode disconnected s b = b
  ending-Balanced prefill decode broken s b = b
  ending-Balanced prefill decode never_started s b = b
  ending-Balanced prefill decode http_broken s b =
      (failing-Done Unit prefill decode (http_exception 502) s b).0

  finally-state :
      (m : Session × Result Unit) (k : Action Session Unit) → (finally m k).0 ≡ (k m.0).0
  finally-state (s, r) k = go (k s)
    where
      go : (x : Session × Result Unit) → (resume x (λ u. lift r)).0 ≡ x.0
      go (t, ok u) = refl
      go (t, raise e) = refl

  wrapped_generator-Done :
      (prefill decode : Option String) (g : Generator) (s : Session)
      → is_started g.reading ≡ true
      → Balanced a n s
      → Done (wrapped_generator w prefill decode g s).0
  unfolding wrapped_generator
  wrapped_generator-Done prefill decode g s started b =
      let m = (call_each w g.calls >> ending w prefill decode g.reading) s in
      if-elim (λ (x : Session × Result Unit). Done x.0) (is_started g.reading)
        (λ yes. rw (finally-state m (release_all_session w)) (
          release_all-Done m.0 (
            resume_keeps (Balanced a n) (call_each w g.calls s)
              (λ u. ending w prefill decode g.reading) (call_each-Balanced w a n g.calls s b)
              (λ u t k. ending-Balanced prefill decode g.reading t k))))
        (λ no. absurd (ground arith))

  -- The outcome of the `try` block: what it returned has been released; what it raised has, or is
  -- to be by the `except` clauses.
  abbrev Outcome : Session × Result Response → Type 0
  Outcome (s, ok response) = Done s
  Outcome (s, raise e) = Done s ⊎ (Balanced a n s × (is_cancelled e ≡ false))

  raised-Outcome : (m : Session × Result Response) → Done m.0 → Outcome m
  raised-Outcome (s, ok response) d = d
  raised-Outcome (s, raise e) d = inl d

  resume-Outcome :
      {X : Type 0} (s : Session) (m : Result X) (f : X → Action Session Response)
      → Balanced a n s
      → Safe m
      → ((x : X) → Outcome (f x s))
      → Outcome (resume (s, m) f)
  resume-Outcome s (ok x) f b safe k = k x
  resume-Outcome s (raise e) f b safe k = inr (b, safe)

  after_prefill-Outcome :
      (j : Job) (prefill decode : String) (g : Generator) (answer : PrefillAnswer) (s : Session)
      → is_started g.reading ≡ true
      → is_answer answer ≡ true
      → is_undisturbed j.mode j.zmq_state ≡ true
      → Balanced a n s
      → Outcome (after_prefill w j prefill decode g answer s)
  unfolding after_prefill
  after_prefill-Outcome j prefill decode g (http_error code) s started good calm b =
      if-elim Outcome (is_discard_cancelled j.mode j.zmq_state)
        (λ yes. absurd (discard_calm j.mode j.zmq_state calm yes))
        (λ no.
          raised-Outcome (prefill_failed w (some prefill) (some decode) code s)
            (failing-Done Response (some prefill) (some decode) (http_exception code) s b))
  after_prefill-Outcome j prefill decode g undecodable s started good calm b = inr (b, refl)
  after_prefill-Outcome j prefill decode g cancelled s started good calm b = absurd (ground arith)
  after_prefill-Outcome j prefill decode g (answered value) s started good calm b =
      resume-Outcome s (decode_request j.mode j.zmq_state value j.request j.max_tokens j.is_chat)
        (λ sent. respond_with w prefill decode g) b
        (decode_request-Safe j.mode j.zmq_state value j.request j.max_tokens j.is_chat calm)
        (λ sent. wrapped_generator-Done (some prefill) (some decode) g s started b)

  body-Outcome :
      (j : Job) (g : Generator) (answer : PrefillAnswer) (prefill decode : Option String)
      (s : Session)
      → is_started g.reading ≡ true
      → is_answer answer ≡ true
      → is_undisturbed j.mode j.zmq_state ≡ true
      → Balanced a n s
      → Outcome (body w j g answer prefill decode s)
  body-Outcome j g answer (some prefill) (some decode) s started good calm b =
      resume-Outcome s (prefill_request j.mode j.zmq_state decode j.request j.is_chat)
        (λ sent. after_prefill w j prefill decode g answer) b
        (prefill_request-Safe j.mode j.zmq_state decode j.request j.is_chat calm)
        (λ sent. after_prefill-Outcome j prefill decode g answer s started good calm b)
  body-Outcome j g answer none decode s started good calm b =
      raised-Outcome (body w j g answer none decode s) (
        resume_keeps Done (release_all_session w s)
          (λ u t. (t, ok (json (unavailable j.demand.model t.proxy.registry))))
          (release_all-Done s b) (λ u t d. d))
  body-Outcome j g answer (some prefill) none s started good calm b =
      raised-Outcome (body w j g answer (some prefill) none s) (
        resume_keeps Done (release_all_session w s)
          (λ u t. (t, ok (json (unavailable j.demand.model t.proxy.registry))))
          (release_all-Done s b) (λ u t d. d))

  -- The `except` clauses release what the `try` block has not.
  outer-Done :
      (e : Error) (s : Session)
      → Done s ⊎ (Balanced a n s × (is_cancelled e ≡ false))
      → Done (outer w e s).0
  outer-Done e s h =
      if-elim (λ (m : Action Session Response). Done (m s).0) (is_cancelled e)
        (λ yes. elim h [ inl d ↦ d | inr (b, other) ↦ absurd (ground arith) ])
        (λ no.
          resume_keeps Done (release_all_session w s) (λ u t. (t, outer_result e))
            (release_all-Done s (elim h [ inl (b, d) ↦ b | inr (b, c) ↦ b ])) (λ u t d. d))

  recovered-Done : (m : Session × Result Response) → Outcome m → Done (recover m (outer w)).0
  recovered-Done (s, ok response) d = d
  recovered-Done (s, raise e) o = outer-Done e s o

  pub reserved-active :
      (j : Job) (g : Generator) (answer : PrefillAnswer) (prefill decode : Option String)
      (p : Proxy)
      → is_started g.reading ≡ true
      → is_answer answer ≡ true
      → is_undisturbed j.mode j.zmq_state ≡ true
      → Balanced a n
          (record { proxy = p; reservation = reserve prefill decode j.demand.request_len })
      → active a (reserved w j g answer prefill decode p).0 ≡ n
  reserved-active j g answer prefill decode p started good calm b =
      let s : Session = record {
        proxy = p;
        reservation = reserve prefill decode j.demand.request_len;
      } in
      let m = body w j g answer prefill decode s in
      Done-active (recover m (outer w)).0
        (recovered-Done m (body-Outcome j g answer prefill decode s started good calm b))
