-- ===== src/Gateway/Responses.antt =====
-- The answers of the routes: the body of a success with its status, or an error response.
pub mod Told
use ix_gateway.Prelude.{ℕ, String, Option, List, map, ◌≡◌, refl, ⊤}
use ix_gateway.Errors.{Exn}
use ix_gateway.Errors.Render.{JsonResponse, program, handle_exception}
use ix_gateway.Models.{PaymentIntent, LedgerEntry, CheckoutSession, Merchant, ApiKey}
use ix_gateway.Env.{Env}
use ix_gateway.Db.{Session, Result, Exec, ok, raised, pure, continue, ◌>>=◌, get_db}
use ix_gateway.Schemas.Views.{
  PaymentIntentRead, TransactionDetail, PaginatedTransactions, CurrencyBalance, CheckoutSessionRead,
  MerchantRead, ApiKeyRead, ApiKeyIssued, read_intent, read_entry, read_session, read_merchant,
  read_key,
}
use ix_gateway.HostedPage
use ix_gateway.HostedPage.{HtmlResponse}
use ix_gateway.Webhook.{Received, stripe_webhook}
use ix_gateway.Api
use ix_gateway.Api.Dashboard
use ix_gateway.Gateway.{
  Request, create_payment_intent, confirm_payment_intent, cancel_payment_intent,
  retrieve_payment_intent, refund_payment_intent, create_checkout_session,
  retrieve_checkout_session, hosted_checkout_page, get_transaction, get_balance, list_transactions,
  create_merchant, issue_api_key, list_api_keys, revoke_api_key, webhook, ignore, handle,
}

pub data Body : Type 0 where
  intent : PaymentIntentRead → Body
  detail : TransactionDetail → Body
  checkout : CheckoutSessionRead → Body
  html : HtmlResponse → Body
  balance : List CurrencyBalance → Body
  transactions : PaginatedTransactions → Body
  merchant : MerchantRead → Body
  issued : ApiKeyIssued → Body
  keys : List ApiKeyRead → Body
  key : ApiKeyRead → Body
  acknowledged : Received → Body

-- The `status_code` of the routes.
abbrev pub success_status : Request → ℕ
success_status (create_payment_intent _ _) = 201
success_status (refund_payment_intent _ _ _) = 201
success_status (create_checkout_session _ _) = 201
success_status (create_merchant _ _ _) = 201
success_status (issue_api_key _ _ _) = 201
success_status _ = 200

-- `model_validate` on what a handler returns.
abbrev pub shown : {A : Type 0} → (A → Body) → Exec A → Exec Body
shown view m = m >>= λ a. pure (view a)

module _ (env : Env) where
  -- The handlers with the bodies of their answers.
  pub respond : Request → Exec Body
  respond (create_payment_intent c body) =
      shown (λ p. intent (read_intent p)) (Api.create_payment_intent env c body)
  respond (confirm_payment_intent c pid body) =
      shown (λ p. intent (read_intent p)) (Api.confirm_payment_intent env c pid body)
  respond (cancel_payment_intent c pid body) =
      shown (λ p. intent (read_intent p)) (Api.cancel_payment_intent env c pid body)
  respond (retrieve_payment_intent c pid) =
      shown (λ p. intent (read_intent p)) (Api.retrieve_payment_intent env c pid)
  respond (refund_payment_intent c pid body) =
      shown (λ p. intent (read_intent p)) (Api.refund_payment_intent env c pid body)
  respond (create_checkout_session c body) =
      shown (λ x. checkout (read_session x)) (Api.create_checkout_session env c body)
  respond (retrieve_checkout_session c sid) =
      shown (λ x. checkout (read_session x)) (Api.retrieve_checkout_session env c sid)
  respond (hosted_checkout_page sid) = shown html (
      HostedPage.hosted_checkout_page env.checkout_message_html env.checkout_session_html
        env.stripe_publishable_key sid)
  respond (get_transaction c pid) =
      shown
        (λ found.
          detail (record { intent = read_intent found.0; ledger_entries = map read_entry found.1 }))
        (Api.get_transaction env c pid)
  respond (get_balance c) = shown balance (Dashboard.get_balance env c)
  respond (list_transactions c q) = shown transactions (Dashboard.list_transactions env c q)
  respond (create_merchant a name email) =
      shown (λ m. merchant (read_merchant m)) (Api.create_merchant env a name email)
  respond (issue_api_key a mid name) =
      shown (λ made. issued (record { row = read_key made.0; key = made.1 }))
        (Api.issue_api_key env a mid name)
  respond (list_api_keys a mid) =
      shown (λ rows. keys (map read_key rows)) (Api.list_api_keys env a mid)
  respond (revoke_api_key a mid kid) =
      shown (λ row. key (read_key row)) (Api.revoke_api_key env a mid kid)
  respond (webhook signature body) = shown acknowledged (stripe_webhook env signature body)

pub data Answer : Type 0 where
  success : (status_code : ℕ) → Body → Answer
  failure : JsonResponse → Answer

-- A page brings its own status.
abbrev pub status_with : Request → Body → ℕ
status_with r (html page) = page.status_code
status_with r _ = success_status r

-- What the client gets: the body, or what the exception handlers make of the exception.
abbrev pub answer_of : (Exn → Option String) → Request → Result Body → Answer
answer_of detail_of r (ok body) = success (status_with r body) body
answer_of detail_of r (raised e) = failure (handle_exception detail_of (program e))

module _ (env : Env) (detail_of : Exn → Option String) where
  unfoldable pub answer : Request → Session → Answer × Session
  answer r s = let (result, t) = get_db (respond env r) s in (answer_of detail_of r result, t)

-- The answer apart, a response is the handling of the request.
abbrev pub dropped : Result Body × Session → Result ⊤ × Session
dropped (r, t) = continue r (λ _. pure tt) t

dropped-shown :
    {A : Type 0} (view : A → Body) (o : Result A × Session)
    → dropped (continue o.0 (λ a. pure (view a)) o.1) ≡ continue o.0 (λ _. pure tt) o.1
dropped-shown view (ok a, t) = refl
dropped-shown view (raised e, t) = refl

module _ (env : Env) (s : Session) where
  pub dropped-respond : (r : Request) → dropped (respond env r s) ≡ handle env r s
  unfolding respond handle
  dropped-respond (create_payment_intent c body) =
      dropped-shown _ ((Api.create_payment_intent env c body) s)
  dropped-respond (confirm_payment_intent c pid body) =
      dropped-shown _ ((Api.confirm_payment_intent env c pid body) s)
  dropped-respond (cancel_payment_intent c pid body) =
      dropped-shown _ ((Api.cancel_payment_intent env c pid body) s)
  dropped-respond (retrieve_payment_intent c pid) =
      dropped-shown _ ((Api.retrieve_payment_intent env c pid) s)
  dropped-respond (refund_payment_intent c pid body) =
      dropped-shown _ ((Api.refund_payment_intent env c pid body) s)
  dropped-respond (create_checkout_session c body) =
      dropped-shown _ ((Api.create_checkout_session env c body) s)
  dropped-respond (retrieve_checkout_session c sid) =
      dropped-shown _ ((Api.retrieve_checkout_session env c sid) s)
  dropped-respond (hosted_checkout_page sid) = dropped-shown _ (
      (HostedPage.hosted_checkout_page env.checkout_message_html env.checkout_session_html
          env.stripe_publishable_key sid)
        s)
  dropped-respond (get_transaction c pid) = dropped-shown _ ((Api.get_transaction env c pid) s)
  dropped-respond (get_balance c) = dropped-shown _ ((Dashboard.get_balance env c) s)
  dropped-respond (list_transactions c q) =
      dropped-shown _ ((Dashboard.list_transactions env c q) s)
  dropped-respond (create_merchant a name email) =
      dropped-shown _ ((Api.create_merchant env a name email) s)
  dropped-respond (issue_api_key a mid name) =
      dropped-shown _ ((Api.issue_api_key env a mid name) s)
  dropped-respond (list_api_keys a mid) = dropped-shown _ ((Api.list_api_keys env a mid) s)
  dropped-respond (revoke_api_key a mid kid) =
      dropped-shown _ ((Api.revoke_api_key env a mid kid) s)
  dropped-respond (webhook signature body) = dropped-shown _ ((stripe_webhook env signature body) s)
