-- ===== src/Handlers/Upstream.antt =====
-- xpyd/routes/completions.py: what `_handle_aggregated_completion` makes of an instance's answer.
use micro_pdproxy.Base.{
  ℕ, String, Bool, false, ◌||◌, List, [], ◌∷◌, if◌then◌else◌, ◌==◌, Result, ok, raise, or_raise,
  ◌>>=◌, key_error, type_error,
}
use micro_pdproxy.Base.Dict
use micro_pdproxy.Json.{Json, object, text, fields, as_dict, get_default, array, items}

-- How the upstream request ends, once its body has been read: with a JSON value, with a body that is
-- none, with an exception of `forward_request`, which has a status and a detail, with another one, or
-- with the cancellation of the task.
pub data Answer : Type 0 where
  answered : Json → Answer
  undecodable : Answer
  http_error : ℕ → String → Answer
  other_error : Answer
  cancelled : Answer

-- What the handler gets from Python's own functions: `needle in text`, and whether a value can be
-- rendered by JSONResponse, which takes no number that is not finite.
pub record Python : Type 0 where
  pub occurs : String → String → Bool
  pub renders : Json → Bool

-- x == "error" for a value x of a list
abbrev is_error : Json → Bool
is_error (text s) = s == "error"
is_error x = false

abbrev contains_error : List Json → Bool
contains_error [] = false
contains_error (x ∷ xs) = is_error x || contains_error xs

-- "error" in body
abbrev pub has_error : Python → Json → Result Bool
has_error py (object fs) = ok (Dict.has (fields fs) "error")
has_error py (array xs) = ok (contains_error (items xs))
has_error py (text s) = ok (py.occurs "error" s)
has_error py body = raise type_error

-- body["error"], where it is in data
abbrev pub error_of : Json → Result Json
error_of (object fs) = or_raise key_error (Dict.get (fields fs) "error")
error_of body = raise type_error

-- The status of an error type.
abbrev pub error_status : Json → ℕ
error_status (text t) =
    if t == "invalid_request_error"
    then 400
    else if t == "authentication_error"
    then 401
    else if t == "not_found_error"
    then 404
    else if t == "rate_limit_error"
    then 429
    else 502
error_status err_type = 502

abbrev status_of_error : Json → Result ℕ
status_of_error body = error_of body >>= λ err.
    as_dict err >>= λ fields. ok (error_status (get_default fields "type" (text "")))

unfoldable pub status_code : Python → Json → Result ℕ
status_code py body = has_error py body >>= λ b. if b then status_of_error body else ok 200
