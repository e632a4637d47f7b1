-- ===== src/Env.antt =====
-- What the program takes from outside its repository: Stripe's API behind the calls of
-- app/services/stripe_client.py, its pages of balance transactions included, random identifiers and
-- digests.
use ix_gateway.Prelude.{ℕ, String, Bool, Option, List}
use ix_gateway.Prelude.Int.{ℤ}
use ix_gateway.Models.{Metadata, PaymentIntent}

-- The requests that `StripeClient` sends, with the keyword arguments that it passes.
pub data StripeCall : Type 0 where
  create_intent_call :
      (amount : ℤ) (currency : String) (customer description : Option String) (metadata : Metadata)
      (idempotency_key : String)
      → StripeCall
  confirm_intent_call : (intent payment_method idempotency_key : String) → StripeCall
  cancel_intent_call :
      (intent idempotency_key : String) (cancellation_reason : Option String) → StripeCall
  create_refund_call :
      (intent idempotency_key : String) (amount : Option ℤ) (reason : Option String) → StripeCall

-- The fields of a `stripe.PaymentIntent` that the program reads.
pub record StripeIntent : Type 0 where
  pub id : String
  pub status : String
  pub client_secret : Option String

pub data StripeReply (A : Type 0) : Type 0 where
  answered : A → StripeReply A
  failed_call : String → StripeReply A

-- The fields of a webhook event that the handler reads; `object_*` are those of `data.object`.
pub record Event : Type 0 where
  pub id : String
  pub type : String
  pub api_version : Option String
  pub object_id : String
  pub object_amount : ℤ
  pub object_amount_received : Option ℤ

-- The `source` of a balance transaction: a dict if Stripe has expanded it, whose `payment_intent` is
-- missing, a text or a dict with an id.
pub data IntentRef : Type 0 where
  no_ref : IntentRef
  text_ref : String → IntentRef
  dict_ref : Option String → IntentRef

pub data Source : Type 0 where
  plain : Source
  expanded : IntentRef → Source

pub record BalanceTransaction : Type 0 where
  pub id : String
  pub amount : ℤ
  pub source : Source

-- The parameters of `stripe.BalanceTransaction.list`, whose limit is 100, and its answer.
pub record BalanceQuery : Type 0 where
  pub created_gte : ℕ
  pub created_lt : ℕ
  pub type : Option String
  pub starting_after : Option String

pub record BalancePage : Type 0 where
  pub items : List BalanceTransaction
  pub has_more : Bool

-- What `stripe.Webhook.construct_event` does with a body and a signature header.
pub data Construction : Type 0 where
  event : Event → Construction
  bad_signature bad_payload : Construction

-- Stripe answers a call by the calls that it has had before, newest first. A refund's answer is its
-- id. `uuid_hex n` is the hex text of the n-th UUID that is drawn. `construct_event body header` is
-- bound to the webhook secret. `token_hex n` is the text of `secrets.token_hex(32)` at the n-th draw,
-- and `admin_api_key` the setting. `stripe_publishable_key` is another, and the two `_html` fields are
-- the HTML files of app/static/. `ties limit offset` is how PostgreSQL places two rows of one
-- creation time in the query for a page of transactions, which another page need not repeat.
pub record Env : Type 0 where
  pub intents : List StripeCall → StripeCall → StripeReply StripeIntent
  pub refunds : List StripeCall → StripeCall → StripeReply String
  pub balance_page : List StripeCall → BalanceQuery → StripeReply BalancePage
  pub uuid_hex : ℕ → String
  pub construct_event : String → String → Construction
  pub token_hex : ℕ → String
  pub sha256_hex : String → String
  pub admin_api_key : String
  pub stripe_publishable_key : String
  pub checkout_message_html : String
  pub checkout_session_html : String
  pub ties : (limit offset : ℕ) → PaymentIntent → PaymentIntent → Bool
