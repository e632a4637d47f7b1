-- ===== src/Schemas/Views.antt =====
-- app/schemas/: the bodies of the answers.
use ix_gateway.Prelude.{Bool, ℕ, String, Option, List}
use ix_gateway.Prelude.Int.{ℤ}
use ix_gateway.Prelude.Text.{concat}
use ix_gateway.Models.{
  PaymentIntent, PaymentIntentStatus, LedgerEntry, LedgerEntryDirection, CheckoutSession,
  CheckoutSessionStatus, Merchant, ApiKey,
}

-- Keys, metadata and errors stay inside.
pub record PaymentIntentRead : Type 0 where
  pub id : String
  pub stripe_payment_intent_id : Option String
  pub merchant_id : Option String
  pub amount : ℤ
  pub currency : String
  pub amount_received : ℤ
  pub amount_refunded : ℤ
  pub status : PaymentIntentStatus
  pub customer_id : Option String
  pub description : Option String
  pub client_secret : Option String
  pub created_at : ℕ
  pub updated_at : ℕ

-- `PaymentIntentRead.model_validate`
abbrev pub read_intent : PaymentIntent → PaymentIntentRead
read_intent p = record {
  id = p.id;
  stripe_payment_intent_id = p.stripe_payment_intent_id;
  merchant_id = p.merchant_id;
  amount = p.amount;
  currency = p.currency;
  amount_received = p.amount_received;
  amount_refunded = p.amount_refunded;
  status = p.status;
  customer_id = p.customer_id;
  description = p.description;
  client_secret = p.client_secret;
  created_at = p.created_at;
  updated_at = p.updated_at;
}

pub record PaginatedTransactions : Type 0 where
  pub items : List PaymentIntentRead
  pub page : ℕ
  pub page_size : ℕ
  pub total : ℕ

pub record AccountBalance : Type 0 where
  pub account : String
  pub balance : ℤ

pub record CurrencyBalance : Type 0 where
  pub currency : String
  pub net : ℤ
  pub accounts : List AccountBalance

pub record LedgerEntryRead : Type 0 where
  pub id : String
  pub transaction_id : String
  pub account : String
  pub direction : LedgerEntryDirection
  pub amount : ℤ
  pub currency : String
  pub payment_intent_id : Option String
  pub description : Option String
  pub created_at : ℕ

abbrev pub read_entry : LedgerEntry → LedgerEntryRead
read_entry e = record {
  id = e.id;
  transaction_id = e.transaction_id;
  account = e.account;
  direction = e.direction;
  amount = e.amount;
  currency = e.currency;
  payment_intent_id = e.payment_intent_id;
  description = e.description;
  created_at = e.created_at;
}

-- The fields of `PaymentIntentRead` with the entries.
pub record TransactionDetail : Type 0 where
  pub intent : PaymentIntentRead
  pub ledger_entries : List LedgerEntryRead

pub record CheckoutSessionRead : Type 0 where
  pub id : String
  pub merchant_id : String
  pub payment_intent_id : Option String
  pub amount : ℤ
  pub currency : String
  pub description : Option String
  pub status : CheckoutSessionStatus
  pub success_url : Option String
  pub expires_at : ℕ
  pub created_at : ℕ
  pub updated_at : ℕ

-- The path of the hosted page.
abbrev pub checkout_url : CheckoutSessionRead → String
checkout_url c = concat "/checkout/" c.id

abbrev pub read_session : CheckoutSession → CheckoutSessionRead
read_session c = record {
  id = c.id;
  merchant_id = c.merchant_id;
  payment_intent_id = c.payment_intent_id;
  amount = c.amount;
  currency = c.currency;
  description = c.description;
  status = c.status;
  success_url = c.success_url;
  expires_at = c.expires_at;
  created_at = c.created_at;
  updated_at = c.updated_at;
}

pub record MerchantRead : Type 0 where
  pub id : String
  pub name : String
  pub email : String
  pub is_active : Bool
  pub created_at : ℕ

abbrev pub read_merchant : Merchant → MerchantRead
read_merchant m = record {
  id = m.id;
  name = m.name;
  email = m.email;
  is_active = m.is_active;
  created_at = m.created_at;
}

-- Neither the hash nor the key itself.
pub record ApiKeyRead : Type 0 where
  pub id : String
  pub merchant_id : String
  pub key_prefix : String
  pub name : String
  pub is_active : Bool
  pub last_used_at : Option ℕ
  pub created_at : ℕ

abbrev pub read_key : ApiKey → ApiKeyRead
read_key k = record {
  id = k.id;
  merchant_id = k.merchant_id;
  key_prefix = k.key_prefix;
  name = k.name;
  is_active = k.is_active;
  last_used_at = k.last_used_at;
  created_at = k.created_at;
}

-- The fields of `APIKeyRead` with the key itself.
pub record ApiKeyIssued : Type 0 where
  pub row : ApiKeyRead
  pub key : String
