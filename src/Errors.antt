-- ===== src/Errors.antt =====
-- xpyd/errors.py: the error responses in OpenAI's format.
use micro_pdproxy.Base.{ℕ, String, [], ◌∷◌}
use micro_pdproxy.Json.{Json, null, text, dict}

pub record JsonResponse : Type 0 where
  pub content : Json
  pub status_code : ℕ

-- INVALID_REQUEST, SERVER_ERROR and PROXY_ERROR
abbrev pub invalid_request : String
invalid_request = "invalid_request_error"

abbrev pub server_error : String
server_error = "server_error"

abbrev pub proxy_error : String
proxy_error = "proxy_error"

abbrev pub error_response : String → String → ℕ → JsonResponse
error_response message error_type status_code = record {
  content = dict (
      ("error", dict (("message", text message) ∷ ("type", text error_type) ∷ ("code", null) ∷ []))
      ∷ []);
  status_code = status_code;
}
