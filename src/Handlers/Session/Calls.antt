-- ===== src/Handlers/Session/Calls.antt =====
-- xpyd/routes/completions.py: any calls of a reservation keep the balance, and `release_all` settles
-- it.
use micro_pdproxy.Base.{
  ℕ, String, ◌≡◌, refl, ◌∙◌, Bool, true, false, not, ◌&&◌, ◌||◌, Option, none, some, List, [], ◌∷◌,
  arith, if◌then◌else◌, Result, ok, raise, get_or_else, if-elim,
}
use micro_pdproxy.Base.Action.{resume, resume_keeps, return}
use micro_pdproxy.Reservation.{RequestReservation, Release, exception_handler, release_all, is_none}
use micro_pdproxy.Reservation.Once.{Call, call, all, handle}
use micro_pdproxy.Proxy as Server
use micro_pdproxy.Proxy.{Proxy, named, truthy}
use micro_pdproxy.Proxy.Policies.{World}
use micro_pdproxy.Handlers.Session.{Session, call_session, call_each, pass}
use micro_pdproxy.Handlers.Session.Balanced.{Balanced, due_of, due_side, pass_one}

then_nothing : (m : Proxy × Result Unit) → (resume m (λ u. return tt)).0 ≡ m.0
then_nothing (p, ok u) = refl
then_nothing (p, raise e) = refl

module _ (w : World) (a : String) (n : ℕ) where
  -- `pass` of at most one release.
  pass-single :
      (r : Release) (p : Proxy)
      → (pass w (r ∷ []) p).0 ≡ (Server.exception_handler w r.prefill r.decode r.req_len p).0
  unfolding pass
  pass-single r p = then_nothing (Server.exception_handler w r.prefill r.decode r.req_len p)

  handle-Balanced :
      (prefill decode : Option String) (len : Option ℕ) (s : Session)
      → Balanced a n s
      → Balanced a n (call_session w (handle prefill decode len) s).0
  unfolding call_session call exception_handler
  handle-Balanced prefill decode len s (c, bp, bd) =
      let r = s.reservation in
      let release_prefill : Bool = not (is_none prefill) && not r.prefill_released in
      let release_decode : Bool = not (is_none decode) && not r.decode_released in
      let releases : Release = record {
        prefill = if release_prefill then r.prefill_instance else none;
        decode = if release_decode then r.decode_instance else none;
        req_len = get_or_else len r.request_len;
      } in
      if-elim
        (λ (m : RequestReservation × List Release).
          Balanced a n (record { proxy = (pass w m.1 s.proxy).0; reservation = m.0 }))
        (not release_prefill && not release_decode) (λ nothing. (c, bp, bd))
        (λ something. (
          rw (pass-single releases s.proxy) (
              pass_one w (not (is_none prefill)) (not (is_none decode)) r.prefill_released
                r.decode_released r.prefill_instance r.decode_instance releases.req_len s.proxy a n
                bp bd c),
          bp,
          bd,
        ))

  pub call-Balanced :
      (c : Call) (s : Session) → Balanced a n s → Balanced a n (call_session w c s).0
  unfolding call_session call release_all
  call-Balanced (handle prefill decode len) s b = handle-Balanced prefill decode len s b
  call-Balanced all s b =
      handle-Balanced s.reservation.prefill_instance s.reservation.decode_instance
        (some s.reservation.request_len) s b

  -- Nothing is due behind a `release_all`.
  settled_side :
      (flag : Bool) (o : Option String) → due_side (flag || not (is_none o) && not flag) o a ≡ 0
  settled_side true o = refl
  settled_side false none = refl
  settled_side false (some x) = refl

  released_side :
      (flag : Bool) (o : Option String)
      → not (not (is_none o) && not flag) ≡ true
      → due_side flag o a ≡ 0
  released_side true o h = refl
  released_side false none h = refl
  released_side false (some x) h = absurd (ground arith)

  pub nothing_due : (s : RequestReservation) → due_of a (release_all s).0 ≡ 0
  unfolding release_all exception_handler
  nothing_due s =
      let release_prefill : Bool = not (is_none s.prefill_instance) && not s.prefill_released in
      let release_decode : Bool = not (is_none s.decode_instance) && not s.decode_released in
      if-elim (λ (m : RequestReservation × List Release). due_of a m.0 ≡ 0)
        (not release_prefill && not release_decode)
        (λ nothing. omega (
          arith,
          released_side s.prefill_released s.prefill_instance (ground arith),
          released_side s.decode_released s.decode_instance (ground arith),
        ))
        (λ something. omega (
          arith,
          settled_side s.prefill_released s.prefill_instance,
          settled_side s.decode_released s.decode_instance,
        ))

  pub release_all-settles :
      (s : Session) → Balanced a n s → Server.Bookings.active a (call_session w all s).0.proxy ≡ n
  unfolding call_session call
  release_all-settles s b = (call-Balanced all s b).0.0 ∙ omega (arith, nothing_due s.reservation)

  pub call_each-Balanced :
      (cs : List Call) (s : Session) → Balanced a n s → Balanced a n (call_each w cs s).0
  unfolding call_each
  call_each-Balanced [] s b = b
  call_each-Balanced (c ∷ cs) s b =
      resume_keeps (Balanced a n) (call_session w c s) (λ u. call_each w cs) (call-Balanced c s b)
        (λ u t k. call_each-Balanced cs t k)
