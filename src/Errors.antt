-- ===== src/Errors.antt =====
-- The error taxonomy of app/core/errors.py, and the other exceptions that reach a handler.
pub mod Render
use ix_gateway.Prelude.{ℕ, String}

-- `ErrorCode`
pub data ErrorCode : Type 0 where
  payment_not_found idempotency_conflict invalid_state invalid_amount : ErrorCode
  refund_not_allowed refund_failed : ErrorCode
  invalid_signature invalid_payload webhook_handler_failed : ErrorCode
  unauthorized merchant_not_found api_key_not_found checkout_session_not_found : ErrorCode
  validation_error internal_error : ErrorCode

-- The subclasses of `AppException`; their `detail` texts are not modelled.
pub data AppException : Type 0 where
  payment_not_found_error idempotency_conflict_error invalid_state_error : AppException
  invalid_amount_error refund_not_allowed_error refund_failed_error : AppException
  invalid_signature_error invalid_payload_error webhook_handler_failed_error : AppException
  unauthorized_error merchant_not_found_error api_key_not_found_error : AppException
  checkout_session_not_found_error : AppException

-- The three conditions under which the ledger raises `LedgerError`.
pub data LedgerError : Type 0 where
  too_few_legs unbalanced not_positive : LedgerError

-- What a call may raise: a domain error, a ledger error, an error of the Stripe library, a
-- `ValueError`, a failed `assert`, an `IndexError`, a `RequestValidationError`, and the two errors of the database layer.
pub data Exn : Type 0 where
  app : AppException → Exn
  ledger : LedgerError → Exn
  stripe_error : String → Exn
  value_error integrity_error multiple_results assertion_error validation_error index_error : Exn

-- The class attribute `code`.
unfoldable pub code : AppException → ErrorCode
code payment_not_found_error = ErrorCode.payment_not_found
code idempotency_conflict_error = ErrorCode.idempotency_conflict
code invalid_state_error = ErrorCode.invalid_state
code invalid_amount_error = ErrorCode.invalid_amount
code refund_not_allowed_error = ErrorCode.refund_not_allowed
code refund_failed_error = ErrorCode.refund_failed
code invalid_signature_error = ErrorCode.invalid_signature
code invalid_payload_error = ErrorCode.invalid_payload
code webhook_handler_failed_error = ErrorCode.webhook_handler_failed
code unauthorized_error = ErrorCode.unauthorized
code merchant_not_found_error = ErrorCode.merchant_not_found
code api_key_not_found_error = ErrorCode.api_key_not_found
code checkout_session_not_found_error = ErrorCode.checkout_session_not_found

-- The class attribute `http_status`.
unfoldable pub http_status : AppException → ℕ
http_status payment_not_found_error = 404
http_status idempotency_conflict_error = 409
http_status invalid_state_error = 409
http_status invalid_amount_error = 422
http_status refund_not_allowed_error = 409
http_status refund_failed_error = 502
http_status invalid_signature_error = 400
http_status invalid_payload_error = 400
http_status webhook_handler_failed_error = 500
http_status unauthorized_error = 401
http_status merchant_not_found_error = 404
http_status api_key_not_found_error = 404
http_status checkout_session_not_found_error = 404
