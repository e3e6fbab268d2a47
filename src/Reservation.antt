-- ===== src/Reservation.antt =====
-- xpyd/routes/completions.py: `_RequestReservation`, which passes on to the proxy's
-- `exception_handler` the releases of what the scheduler booked for a request. The calls passed on
-- are a log.
pub mod Once
use micro_pdproxy.Base.{
  ℕ, String, Bool, true, false, not, ◌&&◌, ◌||◌, Option, none, some, List, [], ◌∷◌, if◌then◌else◌,
  get_or_else,
}

pub record RequestReservation : Type 0 where
  pub prefill_instance : Option String
  pub decode_instance : Option String
  pub request_len : ℕ
  pub prefill_released : Bool
  pub decode_released : Bool

-- The arguments of a call of the server's `exception_handler`.
pub record Release : Type 0 where
  pub prefill : Option String
  pub decode : Option String
  pub req_len : ℕ

abbrev pub is_none {ℓ} : {A : Type ℓ} → Option A → Bool
is_none none = true
is_none (some a) = false

-- __init__
unfoldable pub reserve : Option String → Option String → ℕ → RequestReservation
reserve prefill decode len = record {
  prefill_instance = prefill;
  decode_instance = decode;
  request_len = len;
  prefill_released = is_none prefill;
  decode_released = is_none decode;
}

unfoldable pub exception_handler :
    Option String
    → Option String
    → Option ℕ
    → RequestReservation
    → RequestReservation × List Release
exception_handler prefill decode req_len s =
    let release_prefill : Bool = not (is_none prefill) && not s.prefill_released in
    let release_decode : Bool = not (is_none decode) && not s.decode_released in
    if not release_prefill && not release_decode then (s, []) else (
      record s {
        prefill_released = s.prefill_released || release_prefill;
        decode_released = s.decode_released || release_decode;
      },
      record {
        prefill = if release_prefill then s.prefill_instance else none;
        decode = if release_decode then s.decode_instance else none;
        req_len = get_or_else req_len s.request_len;
      }
          ∷ [],
    )

unfoldable pub release_all : RequestReservation → RequestReservation × List Release
unfolding exception_handler
release_all s = exception_handler s.prefill_instance s.decode_instance (some s.request_len) s
