-- ===== src/Errors.antt =====
-- app/core/errors.py: the registered error codes, `ApiError`, and what a handler can end in.
pub mod Actions
pub mod Response
pub mod Retry
pub mod Wait
use agent_discovery_board.Prelude.{ℕ, String, Bool, true, false, leb, eqb, if◌then◌else◌}

-- The keys of ERROR_CODES.
pub data ErrorCode : Type 0 where
  bad_request unauthorized forbidden not_found method_not_allowed conflict : ErrorCode
  duplicate_listing invalid_test_name reserved_address listing_inactive already_claimed : ErrorCode
  no_template unclaimable_payment_wallet not_imported body_too_large validation_error : ErrorCode
  invalid_task_category invalid_cursor invalid_pagination empty_patch rate_limited : ErrorCode
  missing_signature malformed_signature stale_signature replayed_signature : ErrorCode
  invalid_signature wrong_signer internal_error http_error : ErrorCode

-- ErrorSpec.http_status
unfoldable pub http_status : ErrorCode → ℕ
http_status bad_request = 400
http_status unauthorized = 401
http_status forbidden = 403
http_status not_found = 404
http_status method_not_allowed = 405
http_status conflict = 409
http_status duplicate_listing = 409
http_status invalid_test_name = 422
http_status reserved_address = 422
http_status listing_inactive = 409
http_status already_claimed = 409
http_status no_template = 404
http_status unclaimable_payment_wallet = 422
http_status not_imported = 422
http_status body_too_large = 413
http_status validation_error = 422
http_status invalid_task_category = 422
http_status invalid_cursor = 422
http_status invalid_pagination = 422
http_status empty_patch = 422
http_status rate_limited = 429
http_status missing_signature = 401
http_status malformed_signature = 401
http_status stale_signature = 401
http_status replayed_signature = 401
http_status invalid_signature = 401
http_status wrong_signer = 403
http_status internal_error = 500
http_status http_error = 500

-- ErrorSpec.retryable
unfoldable pub retryable : ErrorCode → Bool
retryable rate_limited = true
retryable stale_signature = true
retryable replayed_signature = true
retryable internal_error = true
retryable _ = false

-- The fields that an error adds to the body.
pub data Extras : Type 0 where
  no_extras : Extras
  existing_listing_id : String → Extras
  retry_after : ℕ → Extras
  clock : ℕ → ℕ → Extras

pub record ApiError : Type 0 where
  pub status_code : ℕ
  pub error_code : ErrorCode
  pub extras : Extras

-- A handler returns, raises an ApiError, or lets another exception escape (a 500 response).
pub data Result {ℓ} (A : Type ℓ) : Type ℓ where
  ok : A → Result A
  err : ApiError → Result A
  crash : Result A

abbrev pub api_error : ℕ → ErrorCode → ApiError
api_error status code = record { status_code = status; error_code = code; extras = no_extras }

unfoldable pub default_code_for_status : ℕ → ErrorCode
default_code_for_status status =
    if eqb status 400
    then bad_request
    else if eqb status 401
    then unauthorized
    else if eqb status 403
    then forbidden
    else if eqb status 404
    then not_found
    else if eqb status 405
    then method_not_allowed
    else if eqb status 409
    then conflict
    else if eqb status 413
    then body_too_large
    else if eqb status 422
    then validation_error
    else if eqb status 429
    then rate_limited
    else if leb 500 status
    then internal_error
    else http_error
