-- ===== src/Errors/Render/Documented.antt =====
-- The error responses, code by code.
use ix_gateway.Prelude.{
  ℕ, String, true, false, ◌&&◌, Option, none, ◌≡◌, refl, inl, inr, ◌⊎◌, leb, Bool-cases, arith,
}
use ix_gateway.Prelude.Text.{truthy}
use ix_gateway.Errors.{
  ErrorCode, AppException, Exn, app, ledger, stripe_error, value_error, integrity_error,
  multiple_results, assertion_error, validation_error, index_error, code, http_status,
  payment_not_found_error, idempotency_conflict_error, invalid_state_error, invalid_amount_error,
  refund_not_allowed_error, refund_failed_error, invalid_signature_error, invalid_payload_error,
  webhook_handler_failed_error, unauthorized_error, merchant_not_found_error,
  api_key_not_found_error, checkout_session_not_found_error,
}
use ix_gateway.Errors.Render.{
  JsonResponse, Raised, program, http_exception, handle_http_exception, handle_exception,
}

-- The HTTP status that belongs to a code.
abbrev pub status_of : ErrorCode → ℕ
status_of ErrorCode.invalid_signature = 400
status_of ErrorCode.invalid_payload = 400
status_of ErrorCode.unauthorized = 401
status_of ErrorCode.payment_not_found = 404
status_of ErrorCode.merchant_not_found = 404
status_of ErrorCode.api_key_not_found = 404
status_of ErrorCode.checkout_session_not_found = 404
status_of ErrorCode.idempotency_conflict = 409
status_of ErrorCode.invalid_state = 409
status_of ErrorCode.refund_not_allowed = 409
status_of ErrorCode.invalid_amount = 422
status_of ErrorCode.validation_error = 422
status_of ErrorCode.webhook_handler_failed = 500
status_of ErrorCode.internal_error = 500
status_of ErrorCode.refund_failed = 502

-- An error of the program's own, and any other.
abbrev pub IsOwn : Exn → JsonResponse → Type 0
IsOwn e r =
    ((x : AppException) × (e ≡ app x) × (r.content.error_code ≡ code x))
    ⊎ ((e ≡ validation_error) × (r.content.error_code ≡ ErrorCode.validation_error))

abbrev pub IsOpaque : JsonResponse → Type 0
IsOpaque r =
    (r.content.error_code ≡ ErrorCode.internal_error)
    × (r.content.message ≡ "internal server error")
    × (r.content.detail ≡ none)

-- Of a framework's own exception the status stays, and the code belongs to it or is the internal
-- error; the detail is shown.
abbrev pub IsRelayed : ℕ → Option String → JsonResponse → Type 0
IsRelayed n detail r =
    (r.status_code ≡ n)
    × ((status_of r.content.error_code ≡ n)
        ⊎ ((r.content.error_code ≡ ErrorCode.internal_error)
            × ((n ≡ 401) → ⊥)
            × ((n ≡ 404) → ⊥)
            × ((n ≡ 422) → ⊥)))
    × (r.content.detail ≡ truthy detail)

abbrev pub Documented : Raised → JsonResponse → Type 0
Documented (program e) r =
    (r.status_code ≡ status_of r.content.error_code) × (IsOwn e r ⊎ IsOpaque r)
Documented (http_exception n detail) r = IsRelayed n detail r

status_of-code :
    (detail_of : Exn → Option String) (x : AppException)
    → (handle_exception detail_of (program (app x))).status_code ≡ status_of (code x)
unfolding handle_exception http_status code
status_of-code detail_of payment_not_found_error = refl
status_of-code detail_of idempotency_conflict_error = refl
status_of-code detail_of invalid_state_error = refl
status_of-code detail_of invalid_amount_error = refl
status_of-code detail_of refund_not_allowed_error = refl
status_of-code detail_of refund_failed_error = refl
status_of-code detail_of invalid_signature_error = refl
status_of-code detail_of invalid_payload_error = refl
status_of-code detail_of webhook_handler_failed_error = refl
status_of-code detail_of unauthorized_error = refl
status_of-code detail_of merchant_not_found_error = refl
status_of-code detail_of api_key_not_found_error = refl
status_of-code detail_of checkout_session_not_found_error = refl

same_number : (n k : ℕ) → (leb k n && leb n k) ≡ true → k ≡ n
same_number n k h = ground arith

other_number : (n k : ℕ) → (leb k n && leb n k) ≡ false → (n ≡ k) → ⊥
other_number n k h e = ground arith

handle_http_exception-IsRelayed :
    (n : ℕ) (detail : Option String) → IsRelayed n detail (handle_http_exception n detail)
handle_http_exception-IsRelayed n detail = elim (Bool-cases (leb 401 n && leb n 401)) [
  | inl a ↦ rw a (refl, inl (same_number n 401 a), refl)
  | inr x ↦ elim (Bool-cases (leb 404 n && leb n 404)) [
    | inl b ↦ rw (x, b) (refl, inl (same_number n 404 b), refl)
    | inr y ↦ elim (Bool-cases (leb 422 n && leb n 422)) [
      | inl c ↦ rw (x, y, c) (refl, inl (same_number n 422 c), refl)
      | inr z ↦
          rw (x, y, z)
            (
              refl,
              inr (refl, other_number n 401 x, other_number n 404 y, other_number n 422 z),
              refl,
            )
    ]
  ]
]

pub handle_exception-Documented :
    (detail_of : Exn → Option String) (r : Raised) → Documented r (handle_exception detail_of r)
unfolding handle_exception
handle_exception-Documented detail_of (program (app x)) =
    (status_of-code detail_of x, inl (inl (x, refl, refl)))
handle_exception-Documented detail_of (program validation_error) = (refl, inl (inr (refl, refl)))
handle_exception-Documented detail_of (program (ledger x)) = (refl, inr (refl, refl, refl))
handle_exception-Documented detail_of (program (stripe_error text)) = (refl, inr (refl, refl, refl))
handle_exception-Documented detail_of (program value_error) = (refl, inr (refl, refl, refl))
handle_exception-Documented detail_of (program integrity_error) = (refl, inr (refl, refl, refl))
handle_exception-Documented detail_of (program multiple_results) = (refl, inr (refl, refl, refl))
handle_exception-Documented detail_of (program assertion_error) = (refl, inr (refl, refl, refl))
handle_exception-Documented detail_of (program index_error) = (refl, inr (refl, refl, refl))
handle_exception-Documented detail_of (http_exception n detail) =
    handle_http_exception-IsRelayed n detail
