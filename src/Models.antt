-- ===== src/Models.antt =====
-- The tables of app/models/, a record for each row. A time is a number; a metadata column is a list
-- of keys with nullable values.
use ix_gateway.Prelude.{ℕ, String, Option, List, Bool, true, false, none, some, ◌==◌, if◌then◌else◌}
use ix_gateway.Prelude.Int.{ℤ}
use ix_gateway.Errors.{Exn}

abbrev pub Metadata : Type 0
Metadata = List (String × Option String)

pub data PaymentIntentStatus : Type 0 where
  requires_payment_method requires_confirmation requires_action : PaymentIntentStatus
  processing succeeded canceled failed : PaymentIntentStatus

-- `PaymentIntentStatus(text)`, which raises `ValueError` on any other text.
unfoldable pub parse_status : String → Option PaymentIntentStatus
parse_status t =
    if t == "requires_payment_method"
    then some requires_payment_method
    else if t == "requires_confirmation"
    then some requires_confirmation
    else if t == "requires_action"
    then some requires_action
    else if t == "processing"
    then some processing
    else if t == "succeeded"
    then some succeeded
    else if t == "canceled"
    then some canceled
    else if t == "failed"
    then some failed
    else none

abbrev pub status_is : PaymentIntentStatus → PaymentIntentStatus → Bool
status_is PaymentIntentStatus.requires_payment_method PaymentIntentStatus.requires_payment_method =
    true
status_is PaymentIntentStatus.requires_confirmation PaymentIntentStatus.requires_confirmation = true
status_is PaymentIntentStatus.requires_action PaymentIntentStatus.requires_action = true
status_is PaymentIntentStatus.processing PaymentIntentStatus.processing = true
status_is succeeded succeeded = true
status_is canceled canceled = true
status_is failed failed = true
status_is _ _ = false

abbrev pub is_succeeded : PaymentIntentStatus → Bool
is_succeeded succeeded = true
is_succeeded _ = false

abbrev pub is_canceled : PaymentIntentStatus → Bool
is_canceled canceled = true
is_canceled _ = false

-- The statuses that `confirm_intent` returns without a call of Stripe.
abbrev pub is_terminal : PaymentIntentStatus → Bool
is_terminal succeeded = true
is_terminal canceled = true
is_terminal failed = true
is_terminal _ = false

pub record PaymentIntent : Type 0 where
  pub id : String
  pub stripe_payment_intent_id : Option String
  pub idempotency_key : String
  pub amount : ℤ
  pub currency : String
  pub amount_received : ℤ
  pub amount_refunded : ℤ
  pub status : PaymentIntentStatus
  pub merchant_id : Option String
  pub customer_id : Option String
  pub description : Option String
  pub client_secret : Option String
  pub last_error : Option String
  pub payment_metadata : Metadata
  pub created_at : ℕ
  pub updated_at : ℕ

pub data LedgerEntryDirection : Type 0 where
  debit credit : LedgerEntryDirection

pub record LedgerEntry : Type 0 where
  pub id : String
  pub transaction_id : String
  pub account : String
  pub direction : LedgerEntryDirection
  pub amount : ℤ
  pub currency : String
  pub payment_intent_id : Option String
  pub description : Option String
  pub entry_metadata : Metadata
  pub created_at : ℕ

pub data CheckoutSessionStatus : Type 0 where
  open_status completed expired : CheckoutSessionStatus

pub record CheckoutSession : Type 0 where
  pub id : String
  pub merchant_id : String
  pub payment_intent_id : Option String
  pub amount : ℤ
  pub currency : String
  pub description : Option String
  pub status : CheckoutSessionStatus
  pub success_url : Option String
  pub expires_at : ℕ
  pub created_at : ℕ
  pub updated_at : ℕ

-- `payload` is the event's JSON text. `processing_error` keeps the exception itself in place of the
-- first 2048 characters of its text.
pub record WebhookEvent : Type 0 where
  pub id : String
  pub type : String
  pub api_version : Option String
  pub payload : String
  pub processed_at : Option ℕ
  pub processing_error : Option Exn
  pub received_at : ℕ

pub record Merchant : Type 0 where
  pub id : String
  pub name : String
  pub email : String
  pub is_active : Bool
  pub created_at : ℕ
  pub updated_at : ℕ

pub record ApiKey : Type 0 where
  pub id : String
  pub merchant_id : String
  pub key_prefix : String
  pub key_hash : String
  pub name : String
  pub is_active : Bool
  pub last_used_at : Option ℕ
  pub created_at : ℕ

-- What the reconciliation finds for an id that the two sides disagree on.
pub data Mismatch : Type 0 where
  missing_stripe : (stripe_payment_intent_id : String) (internal_amount : Option ℤ) → Mismatch
  missing_internal : (stripe_payment_intent_id : String) (stripe_amount : ℤ) → Mismatch
  amount_mismatch :
      (stripe_payment_intent_id : String) (stripe_amount internal_amount diff : ℤ) → Mismatch

-- A day is the number of days since the epoch.
pub record ReconciliationRun : Type 0 where
  pub id : String
  pub run_date : ℕ
  pub total_stripe : ℤ
  pub total_internal : ℤ
  pub mismatches_count : ℕ
  pub mismatches : List Mismatch
  pub created_at : ℕ
