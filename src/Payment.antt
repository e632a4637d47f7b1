-- ===== src/Payment.antt =====
-- app/services/payment.py: the payment intents and their bookings.
mod Rows
pub mod Books
pub mod Accounts
pub mod Upholds
pub mod Safe
pub mod Replay
pub mod CreateOutcome
pub mod CaptureOutcome
pub mod StatusOutcome
pub mod RefundOutcome
pub mod Settle
pub mod Consistent
pub mod RefundConsistent
pub mod CreateConsistent
pub mod Life
pub mod CreateDue
pub mod RefundDue
pub mod Race
pub mod KeepsKeys
mod Tests
pub use Rows.{
  PaymentIntentCreate, PaymentIntentConfirm, PaymentIntentCancel, same_value, conflicts, unchanged,
  stamped, replace_intent, payments_authorised, payments_captured,
}
unfoldable pub use Rows.{
  find_by_idempotency_key, get_by_id, find_by_stripe_id, add_intent, save_intent, customer_pending,
  customer_account,
}
use ix_gateway.Prelude.{
  ℕ, String, Bool, false, not, ◌&&◌, ◌||◌, Option, none, some, List, [], ◌∷◌, ◌++◌, any, select, ⊤,
  ◌==◌, if◌then◌else◌,
}
use ix_gateway.Prelude.Int.{ℤ, pos, ◌+ℤ◌, ◌-ℤ◌, ltb_ℤ, leb_ℤ, eqb_ℤ}
use ix_gateway.Prelude.Text.{lower, truthy, or_default, concat}
use ix_gateway.Errors.{
  app, stripe_error, value_error, integrity_error, idempotency_conflict_error, invalid_amount_error,
  invalid_state_error, payment_not_found_error, refund_failed_error, refund_not_allowed_error,
}
use ix_gateway.Models.{
  Metadata, PaymentIntent, PaymentIntentStatus, parse_status, is_succeeded, is_canceled,
  is_terminal, status_is, succeeded,
}
use ix_gateway.Env.{Env, StripeIntent}
use ix_gateway.Db.{
  Result, Exec, ok, raised, pure, raise, gets, or_raise, raise_if, scalar_one_or_none, commit,
  uuid4_hex, ◌>>=◌, ◌>>◌,
}
use ix_gateway.StripeClient.{
  create_payment_intent, confirm_payment_intent, cancel_payment_intent, create_refund,
}
use ix_gateway.Ledger.{pair, is_value, record_transaction}

-- The comparison with the row that an idempotency key already has.
abbrev pub differs : PaymentIntent → PaymentIntentCreate → Bool
differs existing payload =
    not (eqb_ℤ existing.amount payload.amount) || not (existing.currency == lower payload.currency)

abbrev pub as_refund_failed : Result String → Result String
as_refund_failed (raised (stripe_error text)) = raised (app refund_failed_error)
as_refund_failed r = r

-- `amount if amount is not None else refundable`
abbrev pub or_full : Option ℤ → ℤ → ℤ
or_full none refundable = refundable
or_full (some amount) refundable = amount

module _ (env : Env) where
  -- The row that `PaymentIntent(...)` builds, with the columns' defaults.
  abbrev pub new_intent :
      PaymentIntentCreate
      → Option String
      → StripeIntent
      → PaymentIntentStatus
      → String
      → ℕ
      → PaymentIntent
  new_intent payload merchant_id answer status hex now = record {
    id = concat "pi_local_" hex;
    stripe_payment_intent_id = some answer.id;
    idempotency_key = payload.idempotency_key;
    amount = payload.amount;
    currency = lower payload.currency;
    amount_received = pos 0;
    amount_refunded = pos 0;
    status = status;
    merchant_id = merchant_id;
    customer_id = payload.customer_id;
    description = payload.description;
    client_secret = answer.client_secret;
    last_error = none;
    payment_metadata = payload.metadata;
    created_at = now;
    updated_at = now;
  }

  -- The part of `create_intent` for a key that has no row yet.
  pub create_new : PaymentIntentCreate → Option String → Exec PaymentIntent
  create_new payload merchant_id = do
    answer ←
        create_payment_intent env payload.amount payload.currency payload.idempotency_key
          payload.customer_id payload.description payload.metadata
    status ← or_raise (parse_status answer.status) value_error
    hex ← uuid4_hex env
    now ← gets (λ s. s.now)
    let intent = new_intent payload merchant_id answer status hex now
    add_intent intent
    record_transaction env
        (pair (customer_pending payload.customer_id) payments_authorised payload.amount)
        payload.currency (some intent.id) (some "payment_intent.created") [] none
    commit
    pure intent

  pub create_or_replay :
      PaymentIntentCreate → Option String → Option PaymentIntent → Exec PaymentIntent
  create_or_replay payload merchant_id none = create_new payload merchant_id
  create_or_replay payload merchant_id (some existing) =
      if differs existing payload then raise (app idempotency_conflict_error) else pure existing

  pub create_intent : PaymentIntentCreate → Option String → Exec PaymentIntent
  create_intent payload merchant_id = do
    existing ← find_by_idempotency_key payload.idempotency_key
    create_or_replay payload merchant_id existing

  pub confirm_open : PaymentIntent → PaymentIntentConfirm → Exec PaymentIntent
  confirm_open intent payload = do
    sid ← or_raise (truthy intent.stripe_payment_intent_id) (app invalid_state_error)
    answer ← confirm_payment_intent env sid payload.payment_method_id payload.idempotency_key
    status ← or_raise (parse_status answer.status) value_error
    saved ← save_intent intent (record intent { status = status })
    commit
    pure saved

  pub confirm_intent : String → PaymentIntentConfirm → Exec PaymentIntent
  confirm_intent pid payload = do
    found ← get_by_id pid
    intent ← or_raise found (app payment_not_found_error)
    if is_terminal intent.status then pure intent else confirm_open intent payload

  pub cancel_open : PaymentIntent → PaymentIntentCancel → Exec PaymentIntent
  cancel_open intent payload = do
    raise_if (is_succeeded intent.status) (app invalid_state_error)
    sid ← or_raise (truthy intent.stripe_payment_intent_id) (app invalid_state_error)
    answer ← cancel_payment_intent env sid payload.idempotency_key payload.reason
    status ← or_raise (parse_status answer.status) value_error
    saved ← save_intent intent (record intent { status = status })
    record_transaction env
        (pair payments_authorised (customer_pending intent.customer_id) intent.amount)
        intent.currency (some intent.id) (some "payment_intent.canceled") [] none
    commit
    pure saved

  pub cancel_intent : String → PaymentIntentCancel → Exec PaymentIntent
  cancel_intent pid payload = do
    found ← get_by_id pid
    intent ← or_raise found (app payment_not_found_error)
    if is_canceled intent.status then pure intent else cancel_open intent payload

  -- Flushed, and left to the webhook handler to commit.
  unfoldable pub capture : PaymentIntent → ℤ → Exec (Option PaymentIntent)
  capture intent amount_received = do
    saved ←
        save_intent intent (record intent { status = succeeded; amount_received = amount_received })
    record_transaction env (pair payments_authorised payments_captured amount_received)
        intent.currency (some intent.id) (some "payment_intent.succeeded") [] none
    pure (some saved)

  unfoldable pub apply_succeeded_event : String → ℤ → Exec (Option PaymentIntent)
  apply_succeeded_event sid amount_received = do
    found ← find_by_stripe_id sid
    elim found [
      | none ↦ pure none
      | some intent ↦
          if is_succeeded intent.status then pure (some intent) else capture intent amount_received
    ]

  -- `except stripe.StripeError as exc: raise RefundFailedError(...) from exc`
  abbrev pub refund_or_fail : Exec String → Exec String
  refund_or_fail m s = let (r, s') = m s in (as_refund_failed r, s')

  -- The part of `refund_intent` behind its guards.
  pub refund_checked :
      PaymentIntent → String → ℤ → (key : String) (reason : Option String) → Exec PaymentIntent
  refund_checked intent sid amount key reason = do
    refund ← refund_or_fail (create_refund env sid (some amount) key reason)
    saved ←
        save_intent intent (record intent { amount_refunded = intent.amount_refunded +ℤ amount })
    record_transaction env (pair payments_captured (customer_account intent.customer_id) amount)
        intent.currency (some intent.id) (some (concat "refund:" refund))
        (("stripe_refund_id", some refund) ∷ ("reason", reason) ∷ []) none
    commit
    pure saved

  pub refund_intent :
      String → (key : String) (amount : Option ℤ) (reason : Option String) → Exec PaymentIntent
  refund_intent pid key amount reason = do
    found ← get_by_id pid
    intent ← or_raise found (app payment_not_found_error)
    raise_if (not (is_succeeded intent.status)) (app refund_not_allowed_error)
    sid ← or_raise (truthy intent.stripe_payment_intent_id) (app refund_not_allowed_error)
    let refundable = intent.amount_received -ℤ intent.amount_refunded
    raise_if (leb_ℤ refundable (pos 0)) (app invalid_amount_error)
    let refund_amount = or_full amount refundable
    raise_if (leb_ℤ refund_amount (pos 0) || ltb_ℤ refundable refund_amount)
        (app invalid_amount_error)
    refund_checked intent sid refund_amount key reason
