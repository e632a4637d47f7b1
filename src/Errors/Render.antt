-- ===== src/Errors/Render.antt =====
-- main.py: the exception handlers, with the default messages of app/core/errors.py.
pub mod Documented
mod Tests
use ix_gateway.Prelude.{ℕ, String, Option, none, ◌&&◌, leb, if◌then◌else◌}
use ix_gateway.Prelude.Text.{or_default, truthy}
use ix_gateway.Errors.{
  ErrorCode, AppException, Exn, app, ledger, stripe_error, value_error, integrity_error,
  multiple_results, assertion_error, validation_error, index_error, code, http_status,
  payment_not_found_error, idempotency_conflict_error, invalid_state_error, invalid_amount_error,
  refund_not_allowed_error, refund_failed_error, invalid_signature_error, invalid_payload_error,
  webhook_handler_failed_error, unauthorized_error, merchant_not_found_error,
  api_key_not_found_error, checkout_session_not_found_error,
}

pub record ErrorResponse : Type 0 where
  pub error_code : ErrorCode
  pub message : String
  pub detail : Option String

pub record JsonResponse : Type 0 where
  pub status_code : ℕ
  pub content : ErrorResponse

-- The class attribute `default_message`; no caller gives another message.
unfoldable pub default_message : AppException → String
default_message payment_not_found_error = "payment intent not found"
default_message idempotency_conflict_error = "idempotency key reused with different parameters"
default_message invalid_state_error = "operation not valid in current state"
default_message invalid_amount_error = "amount is outside the permitted range"
default_message refund_not_allowed_error = "refund not permitted for this payment intent"
default_message refund_failed_error = "refund could not be created"
default_message invalid_signature_error = "stripe signature verification failed"
default_message invalid_payload_error = "webhook payload could not be parsed"
default_message webhook_handler_failed_error = "webhook handler raised an exception"
default_message unauthorized_error = "missing or invalid credentials"
default_message merchant_not_found_error = "merchant not found"
default_message api_key_not_found_error = "api key not found"
default_message checkout_session_not_found_error = "checkout session not found"

abbrev pub render : ℕ → ErrorCode → (message : String) → (detail : Option String) → JsonResponse
render http_status code message detail = record {
  status_code = http_status;
  content = record { error_code = code; message = message; detail = detail };
}

-- The dictionary from statuses to codes.
abbrev pub code_of_status : ℕ → ErrorCode
code_of_status n =
    if leb 401 n && leb n 401
    then ErrorCode.unauthorized
    else if leb 404 n && leb n 404
    then ErrorCode.payment_not_found
    else if leb 422 n && leb n 422
    then ErrorCode.validation_error
    else ErrorCode.internal_error

-- The handler of the framework's own `HTTPException`; its detail is a text.
abbrev pub handle_http_exception : (status_code : ℕ) (detail : Option String) → JsonResponse
handle_http_exception status_code detail =
    render status_code (code_of_status status_code) (or_default detail "error") (truthy detail)

-- What the application's handlers get: an exception of the program, or the framework's own
-- `HTTPException`, as for a path without a route.
pub data Raised : Type 0 where
  program : Exn → Raised
  http_exception : (status_code : ℕ) (detail : Option String) → Raised

-- The text that the place of the error gives to it, which the exceptions of the model leave out.
module _ (detail_of : Exn → Option String) where
  abbrev pub handle_app_exception : AppException → JsonResponse
  handle_app_exception e = render (http_status e) (code e) (default_message e) (detail_of (app e))

  abbrev pub handle_validation_error : JsonResponse
  handle_validation_error =
      render 422 ErrorCode.validation_error "request body failed validation"
        (detail_of validation_error)

  abbrev pub handle_unhandled_exception : JsonResponse
  handle_unhandled_exception = render 500 ErrorCode.internal_error "internal server error" none

  -- The framework calls the handler of the most specific class.
  unfoldable pub handle_exception : Raised → JsonResponse
  handle_exception (program (app e)) = handle_app_exception e
  handle_exception (program validation_error) = handle_validation_error
  handle_exception (program _) = handle_unhandled_exception
  handle_exception (http_exception status_code detail) = handle_http_exception status_code detail
