-- ===== src/Handlers/Session.antt =====
-- xpyd/routes/completions.py: the proxy together with the reservation of one request, whose releases
-- go to the proxy's `exception_handler`.
pub mod Balanced
pub mod Calls
use micro_pdproxy.Base.{
  ℕ, zero, suc, ◌+◌, ◌-◌, ◌*◌, ◌/◌, ◌%◌, ◌≤◌, ◌<◌, String, ◌≡◌, refl, sym, ap, ◌∙◌, ◌≢◌, ◌↔◌, ◌⊎◌,
  inl, inr, Bool, true, false, not, ◌&&◌, ◌||◌, Option, none, some, List, [], ◌∷◌, ◌++◌, map, arith,
  if◌then◌else◌, ◌==◌, Result, ok, raise, ltb, leb, eqb, length, is_empty, get_elem?, contains,
  Distinct, Option-cases, Result-cases, Bool-cases, if-intro, get_or_else, or_raise,
}
use micro_pdproxy.Base.Action.{Action, return, resume, ◌>>=◌, ◌>>◌}
use micro_pdproxy.Reservation.{RequestReservation, Release}
use micro_pdproxy.Reservation.Once.{Call, call, all}
use micro_pdproxy.Proxy as Server
use micro_pdproxy.Proxy.{Proxy}
use micro_pdproxy.Proxy.Policies.{World}

pub record Session : Type 0 where
  pub proxy : Proxy
  pub reservation : RequestReservation

-- The calls that a reservation passes on.
unfoldable pub pass : World → List Release → Action Proxy Unit
pass w [] = return tt
pass w (r ∷ rs) = Server.exception_handler w r.prefill r.decode r.req_len >> pass w rs

-- A call of the reservation: its flags are set before it calls the proxy.
unfoldable pub call_session : World → Call → Action Session Unit
unfolding pass
call_session w c s =
    let (reservation, releases) = call c s.reservation in
    let (proxy, done) = pass w releases s.proxy in
    (record { proxy = proxy; reservation = reservation }, done)

abbrev pub release_all_session : World → Action Session Unit
release_all_session w = call_session w all

-- The calls of a generator, up to the first that raises.
unfoldable pub call_each : World → List Call → Action Session Unit
call_each w [] = return tt
call_each w (c ∷ cs) = call_session w c >> call_each w cs

-- A call of the proxy that is not about the reservation.
abbrev pub on_proxy : Action Proxy Unit → Action Session Unit
on_proxy m s = let (proxy, done) = m s.proxy in (record s { proxy = proxy }, done)
