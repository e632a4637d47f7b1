-- ===== src/Schemas.antt =====
-- app/schemas/: the checks that a request body passes before its handler runs. `none` is a
-- `RequestValidationError`.
pub mod Views
use ix_gateway.Prelude.{ℕ, String, Bool, true, ◌&&◌, Option, none, some, leb, if◌then◌else◌}
use ix_gateway.Prelude.Int.{ℤ, pos, leb_ℤ}
use ix_gateway.Prelude.Text.{lower, count}
use ix_gateway.Payment.{PaymentIntentCreate, PaymentIntentConfirm, PaymentIntentCancel}
use ix_gateway.Checkout.{CheckoutSessionCreate}

-- `min_length` and `max_length`
abbrev pub has_length : ℕ → ℕ → String → Bool
has_length low high s = leb low (count s) && leb (count s) high

abbrev pub short_enough : ℕ → Option String → Bool
short_enough high none = true
short_enough high (some s) = leb (count s) high

-- `RefundCreate`
pub record RefundCreate : Type 0 where
  pub amount : Option ℤ
  pub idempotency_key : String
  pub reason : Option String

-- The `_lower_currency` validator runs after the checks of the fields.
pub check_create : PaymentIntentCreate → Option PaymentIntentCreate
check_create p =
    if leb_ℤ (pos 1) p.amount
      && has_length 3 3 p.currency
      && has_length 8 255 p.idempotency_key
      && short_enough 1024 p.description
    then some (record p { currency = lower p.currency })
    else none

pub check_confirm : PaymentIntentConfirm → Option PaymentIntentConfirm
check_confirm p =
    if has_length 8 255 p.idempotency_key && leb 1 (count p.payment_method_id) then some p else none

pub check_cancel : PaymentIntentCancel → Option PaymentIntentCancel
check_cancel p =
    if has_length 8 255 p.idempotency_key && short_enough 255 p.reason then some p else none

abbrev at_least_one : Option ℤ → Bool
at_least_one none = true
at_least_one (some n) = leb_ℤ (pos 1) n

pub check_refund : RefundCreate → Option RefundCreate
check_refund p =
    if at_least_one p.amount && has_length 8 255 p.idempotency_key && short_enough 255 p.reason
    then some p
    else none

pub check_session : CheckoutSessionCreate → Option CheckoutSessionCreate
check_session p =
    if leb_ℤ (pos 1) p.amount
      && has_length 3 3 p.currency
      && has_length 8 255 p.idempotency_key
      && short_enough 1024 p.description
      && short_enough 2048 p.success_url
    then some (record p { currency = lower p.currency })
    else none

-- `MerchantCreate` and `APIKeyCreateRequest`
pub check_merchant : (name email : String) → Bool
check_merchant name email = has_length 1 255 name && has_length 3 255 email

unfoldable pub check_key_name : String → Bool
check_key_name name = has_length 1 255 name
