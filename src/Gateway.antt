-- ===== src/Gateway.antt =====
-- main.py: the application as a whole, request by request. Each request has a session of its own
-- (`get_db`) at the time at which it comes in.
pub mod Upholds
pub mod Consistent
pub mod Life
pub mod Refusals
pub mod Keys
pub mod Worker
pub mod Responses
mod Tests
use ix_gateway.Prelude.{Bool, true, false, ℕ, String, Option, List, [], ◌∷◌, ⊤}
use ix_gateway.Env.{Env}
use ix_gateway.Db.{Db, Session, Exec, pure, get_db, ◌>>=◌, ◌>>◌}
use ix_gateway.Auth.{Credentials}
use ix_gateway.Payment.{PaymentIntentCreate, PaymentIntentConfirm, PaymentIntentCancel}
use ix_gateway.Checkout.{CheckoutSessionCreate}
use ix_gateway.HostedPage
use ix_gateway.Schemas.{RefundCreate}
use ix_gateway.Webhook.{stripe_webhook}
use ix_gateway.Api
use ix_gateway.Api.Dashboard
use ix_gateway.Api.Dashboard.{TransactionQuery}

pub data Request : Type 0 where
  create_payment_intent : Option Credentials → PaymentIntentCreate → Request
  confirm_payment_intent : Option Credentials → (pid : String) → PaymentIntentConfirm → Request
  cancel_payment_intent : Option Credentials → (pid : String) → PaymentIntentCancel → Request
  retrieve_payment_intent : Option Credentials → (pid : String) → Request
  refund_payment_intent : Option Credentials → (pid : String) → RefundCreate → Request
  create_checkout_session : Option Credentials → CheckoutSessionCreate → Request
  retrieve_checkout_session : Option Credentials → (sid : String) → Request
  hosted_checkout_page : (sid : String) → Request
  get_transaction : Option Credentials → (pid : String) → Request
  get_balance : Option Credentials → Request
  list_transactions : Option Credentials → TransactionQuery → Request
  create_merchant : Option String → (name email : String) → Request
  issue_api_key : Option String → (merchant_id name : String) → Request
  list_api_keys : Option String → (merchant_id : String) → Request
  revoke_api_key : Option String → (merchant_id key_id : String) → Request
  webhook : (signature : Option String) (body : String) → Request

-- The requests that may write the tables of intents and of ledger entries.
abbrev pub moves_money : Request → Bool
moves_money (create_payment_intent _ _) = true
moves_money (confirm_payment_intent _ _ _) = true
moves_money (cancel_payment_intent _ _ _) = true
moves_money (retrieve_payment_intent _ _) = false
moves_money (refund_payment_intent _ _ _) = true
moves_money (create_checkout_session _ _) = true
moves_money (retrieve_checkout_session _ _) = false
moves_money (hosted_checkout_page _) = false
moves_money (get_transaction _ _) = false
moves_money (get_balance _) = false
moves_money (list_transactions _ _) = false
moves_money (create_merchant _ _ _) = false
moves_money (issue_api_key _ _ _) = false
moves_money (list_api_keys _ _) = false
moves_money (revoke_api_key _ _ _) = false
moves_money (webhook _ _) = true

abbrev pub ignore : {A : Type 0} → Exec A → Exec ⊤
ignore m = m >> pure tt

module _ (env : Env) where
  -- The routers; the response's body is left out.
  pub handle : Request → Exec ⊤
  handle (create_payment_intent c body) = ignore (Api.create_payment_intent env c body)
  handle (confirm_payment_intent c pid body) = ignore (Api.confirm_payment_intent env c pid body)
  handle (cancel_payment_intent c pid body) = ignore (Api.cancel_payment_intent env c pid body)
  handle (retrieve_payment_intent c pid) = ignore (Api.retrieve_payment_intent env c pid)
  handle (refund_payment_intent c pid body) = ignore (Api.refund_payment_intent env c pid body)
  handle (create_checkout_session c body) = ignore (Api.create_checkout_session env c body)
  handle (retrieve_checkout_session c sid) = ignore (Api.retrieve_checkout_session env c sid)
  handle (hosted_checkout_page sid) = ignore (
      HostedPage.hosted_checkout_page env.checkout_message_html env.checkout_session_html
        env.stripe_publishable_key sid)
  handle (get_transaction c pid) = ignore (Api.get_transaction env c pid)
  handle (get_balance c) = ignore (Dashboard.get_balance env c)
  handle (list_transactions c q) = ignore (Dashboard.list_transactions env c q)
  handle (create_merchant a name email) = ignore (Api.create_merchant env a name email)
  handle (issue_api_key a mid name) = ignore (Api.issue_api_key env a mid name)
  handle (list_api_keys a mid) = ignore (Api.list_api_keys env a mid)
  handle (revoke_api_key a mid kid) = ignore (Api.revoke_api_key env a mid kid)
  handle (webhook signature body) = ignore (stripe_webhook env signature body)

  -- One request, and a history of them, each with its time.
  pub serve : ℕ × Request → Session → Session
  serve (at, request) s = (get_db (handle request) (record s { now = at })).1

  pub run : List (ℕ × Request) → Session → Session
  run [] s = s
  run (r ∷ rest) s = run rest (serve r s)

-- The gateway before its first request.
abbrev pub empty_db : Db
empty_db = record {
  merchants = [];
  api_keys = [];
  payment_intents = [];
  ledger_entries = [];
  checkout_sessions = [];
  webhook_events = [];
  reconciliation_runs = [];
}

abbrev pub start : Session
start = record { committed = empty_db; db = empty_db; now = 0; uuids = 0; calls = [] }
