-- ===== src/Api.antt =====
-- app/api/: the routes. A gate comes first, then the checks of the body, then the service.
pub mod Upholds
pub mod Isolation
pub mod Dashboard
mod Tests
use ix_gateway.Prelude.{ℕ, String, Bool, not, Option, some, List, ⊤, ◌==◌, if◌then◌else◌}
use ix_gateway.Errors.{
  app, validation_error, payment_not_found_error, checkout_session_not_found_error,
}
use ix_gateway.Models.{PaymentIntent, LedgerEntry, CheckoutSession, Merchant, ApiKey}
use ix_gateway.Env.{Env}
use ix_gateway.Db.{Exec, pure, raise, or_raise, raise_if, ◌>>=◌, ◌>>◌}
use ix_gateway.Ledger.{is_value, list_entries_for_intent}
use ix_gateway.Payment
use ix_gateway.Payment.{PaymentIntentCreate, PaymentIntentConfirm, PaymentIntentCancel}
use ix_gateway.Checkout
use ix_gateway.Checkout.{CheckoutSessionCreate}
use ix_gateway.ApiKeys
use ix_gateway.Merchants
use ix_gateway.Auth.{Credentials, require_api_key, require_admin_api_key}
use ix_gateway.Schemas.{
  RefundCreate, check_create, check_confirm, check_cancel, check_refund, check_session,
  check_merchant, check_key_name,
}

-- An intent of another merchant counts as missing.
abbrev pub owned_or_missing : Merchant → PaymentIntent → Exec PaymentIntent
owned_or_missing merchant intent =
    if is_value intent.merchant_id merchant.id
    then pure intent
    else raise (app payment_not_found_error)

abbrev pub own_session : Merchant → CheckoutSession → Exec CheckoutSession
own_session merchant c =
    if c.merchant_id == merchant.id then pure c else raise (app checkout_session_not_found_error)

module _ (env : Env) where
  -- app/api/payments.py
  unfoldable pub create_payment_intent :
      Option Credentials → PaymentIntentCreate → Exec PaymentIntent
  create_payment_intent header body = do
    merchant ← require_api_key env header
    payload ← or_raise (check_create body) validation_error
    Payment.create_intent env payload (some merchant.id)

  unfoldable pub confirm_payment_intent :
      Option Credentials → String → PaymentIntentConfirm → Exec PaymentIntent
  confirm_payment_intent header pid body = do
    merchant ← require_api_key env header
    payload ← or_raise (check_confirm body) validation_error
    Payment.confirm_intent env pid payload

  unfoldable pub cancel_payment_intent :
      Option Credentials → String → PaymentIntentCancel → Exec PaymentIntent
  cancel_payment_intent header pid body = do
    merchant ← require_api_key env header
    payload ← or_raise (check_cancel body) validation_error
    Payment.cancel_intent env pid payload

  unfoldable pub retrieve_payment_intent : Option Credentials → String → Exec PaymentIntent
  retrieve_payment_intent header pid = do
    merchant ← require_api_key env header
    found ← Payment.get_by_id pid
    or_raise found (app payment_not_found_error)

  -- app/api/refunds.py
  unfoldable pub refund_payment_intent :
      Option Credentials → String → RefundCreate → Exec PaymentIntent
  refund_payment_intent header pid body = do
    merchant ← require_api_key env header
    payload ← or_raise (check_refund body) validation_error
    Payment.refund_intent env pid payload.idempotency_key payload.amount payload.reason

  -- app/api/checkout_sessions.py
  unfoldable pub create_checkout_session :
      Option Credentials → CheckoutSessionCreate → Exec CheckoutSession
  create_checkout_session header body = do
    merchant ← require_api_key env header
    payload ← or_raise (check_session body) validation_error
    Checkout.create_session env merchant payload

  unfoldable pub retrieve_checkout_session : Option Credentials → String → Exec CheckoutSession
  retrieve_checkout_session header sid = do
    merchant ← require_api_key env header
    c ← Checkout.get_open_session sid
    own_session merchant c

  -- app/api/dashboard.py
  unfoldable pub get_transaction :
      Option Credentials → String → Exec (PaymentIntent × List LedgerEntry)
  get_transaction header pid = do
    merchant ← require_api_key env header
    found ← Payment.get_by_id pid
    intent ← or_raise found (app payment_not_found_error)
    owned ← owned_or_missing merchant intent
    entries ← list_entries_for_intent pid
    pure (owned, entries)

  -- app/api/merchants.py
  pub create_merchant : Option String → (name email : String) → Exec Merchant
  create_merchant admin name email = do
    require_admin_api_key env admin
    raise_if (not (check_merchant name email)) validation_error
    Merchants.create_merchant env name email

  unfoldable pub issue_api_key :
      Option String → (merchant_id name : String) → Exec (ApiKey × String)
  issue_api_key admin merchant_id name = do
    require_admin_api_key env admin
    raise_if (not (check_key_name name)) validation_error
    m ← Merchants.get_merchant merchant_id
    ApiKeys.create_api_key env merchant_id name

  pub list_api_keys : Option String → (merchant_id : String) → Exec (List ApiKey)
  list_api_keys admin merchant_id = do
    require_admin_api_key env admin
    m ← Merchants.get_merchant merchant_id
    Merchants.list_api_keys merchant_id

  pub revoke_api_key : Option String → (merchant_id key_id : String) → Exec ApiKey
  revoke_api_key admin merchant_id key_id = do
    require_admin_api_key env admin
    ApiKeys.revoke_api_key key_id merchant_id
