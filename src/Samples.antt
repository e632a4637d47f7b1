-- ===== src/Samples.antt =====
-- Sample data for the tests.
use ix_gateway.Prelude.{ℕ, zero, suc, String, Option, none, some, [], ◌∷◌, Bool}
use ix_gateway.Prelude.Int.{pos}
use ix_gateway.Prelude.Text.{concat}
use ix_gateway.Env.{Env, StripeIntent, Event, event, answered}
use ix_gateway.Db.{Db, Session}
use ix_gateway.Auth.{Credentials}
use ix_gateway.Models.{
  PaymentIntentStatus, PaymentIntent, CheckoutSession, Merchant, ApiKey, open_status, succeeded,
}
use ix_gateway.Payment.{PaymentIntentCreate}

-- Identifiers are counted, every key is the same, and Stripe leaves a new intent to be confirmed.
abbrev pub sample_hex : ℕ → String
sample_hex zero = "0"
sample_hex (suc n) = concat "1" (sample_hex n)

abbrev pub sample_intent : StripeIntent
sample_intent = record { id = "pi_1"; status = "requires_confirmation"; client_secret = some "cs" }

abbrev pub sample_event : Event
sample_event = record {
  id = "evt_1";
  type = "payment_intent.succeeded";
  api_version = none;
  object_id = "pi_1";
  object_amount = pos 500;
  object_amount_received = some (pos 500);
}

abbrev pub sample_env : Env
sample_env = record {
  intents = λ calls call. answered sample_intent;
  refunds = λ calls call. answered "re_1";
  balance_page = λ calls query. answered (record { items = []; has_more = Bool.false });
  uuid_hex = sample_hex;
  construct_event = λ body header. event sample_event;
  token_hex = λ n. "0123456789abcdef";
  sha256_hex = λ text. concat "sha:" text;
  admin_api_key = "admin";
  stripe_publishable_key = "pk_test";
  checkout_message_html = "<h1>{{HEADING}}</h1>";
  checkout_session_html = "<b>{{AMOUNT_DISPLAY}}</b>";
  ties = λ limit offset p q. Bool.true;
}

abbrev pub sample_header : Option Credentials
sample_header = some (record { scheme = "Bearer"; credentials = "gw_live_0123456789abcdef" })

abbrev pub sample_order : PaymentIntentCreate
sample_order = record {
  amount = pos 500;
  currency = "USD";
  idempotency_key = "order-0001";
  customer_id = none;
  description = none;
  metadata = [];
}

abbrev pub sample_merchant : Merchant
sample_merchant = record {
  id = "mer_0";
  name = "Acme";
  email = "shop@acme.io";
  is_active = Bool.true;
  created_at = 0;
  updated_at = 0;
}

-- An intent that Stripe knows as pi_1.
abbrev pub sample_row : PaymentIntentStatus → PaymentIntent
sample_row status = record {
  id = "pi_local_0";
  stripe_payment_intent_id = some "pi_1";
  idempotency_key = "order-0001";
  amount = pos 500;
  currency = "usd";
  amount_received = pos 0;
  amount_refunded = pos 0;
  status = status;
  merchant_id = some "mer_0";
  customer_id = none;
  description = none;
  client_secret = some "cs";
  last_error = none;
  payment_metadata = [];
  created_at = 0;
  updated_at = 0;
}

abbrev pub sample_checkout : CheckoutSession
sample_checkout = record {
  id = "cs_0";
  merchant_id = "mer_0";
  payment_intent_id = some "pi_local_0";
  amount = pos 500;
  currency = "usd";
  description = none;
  status = open_status;
  success_url = none;
  expires_at = 86400;
  created_at = 0;
  updated_at = 0;
}

abbrev pub sample_db : PaymentIntentStatus → Db
sample_db status = record {
  merchants = sample_merchant ∷ [];
  api_keys = [];
  payment_intents = sample_row status ∷ [];
  ledger_entries = [];
  checkout_sessions = sample_checkout ∷ [];
  webhook_events = [];
  reconciliation_runs = [];
}

-- A merchant with one intent behind a checkout session.
abbrev pub sample_open : PaymentIntentStatus → Session
sample_open status = record {
  committed = sample_db status;
  db = sample_db status;
  now = 100;
  uuids = 7;
  calls = [];
}

-- The same with the API key of `sample_header`.
abbrev sample_key : ApiKey
sample_key = record {
  id = "ak_0";
  merchant_id = "mer_0";
  key_prefix = "01234567";
  key_hash = "sha:gw_live_0123456789abcdef";
  name = "till";
  is_active = Bool.true;
  last_used_at = none;
  created_at = 0;
}

abbrev sample_keyed_db : PaymentIntentStatus → Db
sample_keyed_db status = record (sample_db status) { api_keys = sample_key ∷ [] }

abbrev pub sample_keyed : PaymentIntentStatus → Session
sample_keyed status = record (sample_open status) {
  committed = sample_keyed_db status;
  db = sample_keyed_db status;
}

-- The same with the intent paid.
abbrev pub sample_paid_row : PaymentIntent
sample_paid_row = record (sample_row succeeded) { amount_received = pos 500 }

abbrev sample_paid_db : Db
sample_paid_db = record (sample_db succeeded) { payment_intents = sample_paid_row ∷ [] }

abbrev pub sample_paid : Session
sample_paid = record {
  committed = sample_paid_db;
  db = sample_paid_db;
  now = 100;
  uuids = 7;
  calls = [];
}
