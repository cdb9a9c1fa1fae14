-- ===== src/Errors/Wait.antt =====
-- app/core/errors.py with app/core/rate_limit.py: the response to a request that a limiter refuses.
use agent_discovery_board.Prelude.{
  ℕ, String, ◌≡◌, ◌≢◌, refl, Option, none, some, List, [], ◌∷◌, arith, if◌then◌else◌, Json,
  JsonLibrary,
}
use agent_discovery_board.Errors.{
  ErrorCode, not_found, rate_limited, Extras, retry_after, default_code_for_status,
}
use agent_discovery_board.Errors.Actions.{
  action, signature_header, is_signed_request, next_actions_for,
}
use agent_discovery_board.Errors.Response.{
  message_for, header_wait, resolve_http_exception, build_error_body, http_error_response,
}

-- An HTTPException of status 429 with a Retry-After header, which is what a limiter raises, becomes
-- a rate_limited body that repeats the header's wait and says to send the same request again, freshly
-- signed if it is one that must be signed.
pub limited_response :
    (lib : JsonLibrary) (read_int : String → Option ℕ) (detail : Json)
    (headers : List (String × String)) (method path : String) (wait : ℕ)
    → header_wait read_int headers ≡ some wait
    → http_error_response lib read_int
        (record { status_code = 429; detail = detail; headers = headers; api = none })
        method
        path
      ≡ (
        429,
        record {
          error_code = rate_limited;
          message = message_for lib detail;
          detail = detail;
          extras = retry_after wait ∷ [];
          next_actions =
              action method path
                (if is_signed_request method path then signature_header ∷ [] else [])
              ∷ [];
        },
      )
unfolding http_error_response resolve_http_exception build_error_body default_code_for_status
    next_actions_for
limited_response lib read_int detail headers method path wait e = rw e refl

-- No code leaves a client without a next action.
pub next_actions_for-ne-nil :
    (code : ErrorCode) (method path : String) (given : Extras)
    → next_actions_for code method path given ≢ []
unfolding next_actions_for
next_actions_for-ne-nil not_found method path given = ground arith
next_actions_for-ne-nil code method path given = ground arith
