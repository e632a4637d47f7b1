-- ===== src/Gateway/Refusals.antt =====
-- Requests that are refused, and those that only read.
pub mod Calls
pub mod Checkout
use ix_gateway.Gateway.Refusals.Checkout.{
  IsOneOrder, AtOrOrdered, IsAt, create_checkout_session-Spared,
}
use ix_gateway.Gateway.Refusals.Calls.{
  Spared, bind-Spared, or_raise-Spared, ignore-Spared, Upholds-Spared, create_intent-Spared,
  confirm_intent-Spared, cancel_intent-Spared, refund_intent-Spared, stripe_webhook-Spared,
}
use ix_gateway.Prelude.{
  ℕ, String, Bool, true, false, Option, none, some, ◌≡◌, refl, sym, ◌∙◌, ap, ◌⊎◌, inl, inr,
  Bool-cases, ⊤,
}
use ix_gateway.Errors.{Exn}
use ix_gateway.Models.{PaymentIntent, LedgerEntry}
use ix_gateway.Env.{Env}
use ix_gateway.Db.{Session, Result, Exec, ok, raised, get_db, continue, or_raise, pure, ◌>>=◌, ◌>>◌}
use ix_gateway.Auth.{Credentials, require_api_key}
use ix_gateway.Auth.Upholds.{require_api_key-Upholds}
use ix_gateway.Schemas.{RefundCreate, check_create, check_confirm, check_cancel, check_refund}
use ix_gateway.Payment
use ix_gateway.Payment.{PaymentIntentCreate, PaymentIntentConfirm, PaymentIntentCancel}
use ix_gateway.Payment.CreateOutcome.{CreateOutcomes, create_intent-CreateOutcomes}
use ix_gateway.Payment.StatusOutcome.{
  Confirms, Cancels, confirm_intent-Confirms, cancel_intent-Cancels,
}
use ix_gateway.Payment.RefundOutcome.{Outcome, refund_intent-Outcome}
use ix_gateway.ApiKeys.Upholds.{UpheldByKeys, OnPayments-UpheldByKeys}
use ix_gateway.Payment.Upholds.{OnPayments, Invariant, Meets, Upholds}
use ix_gateway.Payment.Life.{Tables}
use ix_gateway.Payment.Life.Refines.{tables}
use ix_gateway.Webhook.{Received, stripe_webhook}
use ix_gateway.Webhook.Failure.{stripe_webhook_atomic}
use ix_gateway.Api
use ix_gateway.Gateway.{
  Request, create_payment_intent, confirm_payment_intent, cancel_payment_intent,
  retrieve_payment_intent, refund_payment_intent, create_checkout_session,
  retrieve_checkout_session, hosted_checkout_page, get_transaction, get_balance, list_transactions,
  create_merchant, issue_api_key, list_api_keys, revoke_api_key, webhook, ignore, handle,
  moves_money, start, List,
}
use ix_gateway.Gateway.Upholds.{handle_read-Upholds}

-- The request whose handler commits in two steps, the intent before its checkout session.
abbrev pub opens_checkout : Request → Bool
opens_checkout (create_checkout_session _ _) = true
opens_checkout _ = false

module _ {I : Invariant} (env : Env) (keys : UpheldByKeys I env) where
  read-Spared :
      (r : Request) (s : Session)
      → moves_money r ≡ false
      → Meets I s.db
      → Meets I s.committed
      → Spared I (handle env r s)
  read-Spared r s calm h k =
      Upholds-Spared (handle env r s) (handle_read-Upholds env keys r s calm h k)

  handle-Spared :
      (r : Request) (s : Session)
      → opens_checkout r ≡ false
      → Meets I s.db
      → Meets I s.committed
      → Spared I (handle env r s)
  unfolding handle Api.create_payment_intent Api.confirm_payment_intent Api.cancel_payment_intent
      Api.refund_payment_intent
  handle-Spared (create_payment_intent c body) s direct h k =
      let (r, t) = require_api_key env c s in
      ignore-Spared (Api.create_payment_intent env c body s) (
        bind-Spared r _ t (require_api_key-Upholds env keys c s h k) λ m x y.
          or_raise-Spared (check_create body) _ _ t y
            λ payload. create_intent-Spared env t y payload (some m.id))
  handle-Spared (confirm_payment_intent c pid body) s direct h k =
      let (r, t) = require_api_key env c s in
      ignore-Spared (Api.confirm_payment_intent env c pid body s) (
        bind-Spared r _ t (require_api_key-Upholds env keys c s h k) λ m x y.
          or_raise-Spared (check_confirm body) _ _ t y
            λ payload. confirm_intent-Spared env t y pid payload)
  handle-Spared (cancel_payment_intent c pid body) s direct h k =
      let (r, t) = require_api_key env c s in
      ignore-Spared (Api.cancel_payment_intent env c pid body s) (
        bind-Spared r _ t (require_api_key-Upholds env keys c s h k) λ m x y.
          or_raise-Spared (check_cancel body) _ _ t y
            λ payload. cancel_intent-Spared env t y pid payload)
  handle-Spared (refund_payment_intent c pid body) s direct h k =
      let (r, t) = require_api_key env c s in
      ignore-Spared (Api.refund_payment_intent env c pid body s) (
        bind-Spared r _ t (require_api_key-Upholds env keys c s h k) λ m x y.
          or_raise-Spared (check_refund body) _ _ t y
            λ payload. refund_intent-Spared env t y pid _ _ _)
  handle-Spared (webhook signature body) s direct h k =
      ignore-Spared (stripe_webhook env signature body s)
        (stripe_webhook-Spared env s k signature body)
  handle-Spared (create_checkout_session c body) s direct h k =
      let clash : true ≡ false = direct in cc
  handle-Spared (create_merchant a name email) s direct h k =
      read-Spared (create_merchant a name email) s refl h k
  handle-Spared (issue_api_key a mid name) s direct h k =
      read-Spared (issue_api_key a mid name) s refl h k
  handle-Spared (list_api_keys a mid) s direct h k = read-Spared (list_api_keys a mid) s refl h k
  handle-Spared (revoke_api_key a mid kid) s direct h k =
      read-Spared (revoke_api_key a mid kid) s refl h k
  handle-Spared (retrieve_payment_intent c pid) s direct h k =
      read-Spared (retrieve_payment_intent c pid) s refl h k
  handle-Spared (retrieve_checkout_session c sid) s direct h k =
      read-Spared (retrieve_checkout_session c sid) s refl h k
  handle-Spared (hosted_checkout_page sid) s direct h k =
      read-Spared (hosted_checkout_page sid) s refl h k
  handle-Spared (get_transaction c pid) s direct h k =
      read-Spared (get_transaction c pid) s refl h k
  handle-Spared (get_balance c) s direct h k = read-Spared (get_balance c) s refl h k
  handle-Spared (list_transactions c q) s direct h k =
      read-Spared (list_transactions c q) s refl h k

-- A request that is refused, or that moves no money, commits nothing to the two tables; but a
-- creation of a checkout session may have committed its intent.
abbrev pub Leaves : Request → Tables → Tables → Type 0
Leaves r b c = (c ≡ b) ⊎ ((opens_checkout r ≡ true) × IsOneOrder b c)

abbrev pub Refuses : Request → Tables → Result ⊤ × Session → Type 0
Refuses r b (raised _, t) = Leaves r b (tables t.committed)
Refuses r b (ok _, t) = (moves_money r ≡ true) ⊎ (tables t.committed ≡ b)

module _ (env : Env) (r : Request) (b : Tables) where
  refused :
      (o : Result ⊤ × Session)
      → Spared (OnPayments (λ ps es. Leaves r b (ps, es))) o
      → ((moves_money r ≡ true) ⊎ Upholds (OnPayments (IsAt b)) o)
      → Refuses r b o
  refused (raised e, t) spared how = spared.spares
  refused (ok a, t) spared (inl pays) = inl pays
  refused (ok a, t) spared (inr safe) = inr safe.books.1

  read_or_pays :
      (s : Session)
      → Meets (OnPayments (IsAt b)) s.db
      → Meets (OnPayments (IsAt b)) s.committed
      → (moves_money r ≡ true) ⊎ Upholds (OnPayments (IsAt b)) (handle env r s)
  read_or_pays s h k = elim (Bool-cases (moves_money r)) [
    | inl pays ↦ inl pays
    | inr calm ↦ inr (handle_read-Upholds env (OnPayments-UpheldByKeys env) r s calm h k)
  ]

  ended : (o : Result ⊤ × Session) → Refuses r b o → Refuses r b (get_db (λ _. o) start)
  unfolding get_db
  ended (raised e, t) d = d
  ended (ok a, t) d = d

  weaker :
      (o : Result ⊤ × Session)
      → Spared (OnPayments (IsAt b)) o
      → Spared (OnPayments (λ ps es. Leaves r b (ps, es))) o
  weaker (ok a, t) spared = record { spares = tt }
  weaker (raised e, t) spared = record { spares = inl spared.spares }

  ordered :
      opens_checkout r ≡ true
      → (o : Result ⊤ × Session) → Spared (OnPayments (AtOrOrdered b)) o
      → Spared (OnPayments (λ ps es. Leaves r b (ps, es))) o
  ordered opens (ok a, t) spared = record { spares = tt }
  ordered opens (raised e, t) spared = record {
    spares = elim spared.spares [ inl same ↦ inl same | inr order ↦ inr (opens, order) ];
  }

opening-Spared :
    (env : Env) (b : Tables) (r : Request) (s : Session)
    → opens_checkout r ≡ true
    → Meets (OnPayments (IsAt b)) s.db
    → Meets (OnPayments (IsAt b)) s.committed
    → Spared (OnPayments (AtOrOrdered b)) (handle env r s)
unfolding handle
opening-Spared env b (create_checkout_session c body) s opens h k =
    ignore-Spared (Api.create_checkout_session env c body s)
      (create_checkout_session-Spared env b c body s h k)
opening-Spared env b _ s opens h k = cc

handle-Leaves :
    (env : Env) (b : Tables) (r : Request) (s : Session)
    → Meets (OnPayments (IsAt b)) s.db
    → Meets (OnPayments (IsAt b)) s.committed
    → Spared (OnPayments (λ ps es. Leaves r b (ps, es))) (handle env r s)
handle-Leaves env b r s h k = elim (Bool-cases (opens_checkout r)) [
  | inl opens ↦ ordered env r b opens (handle env r s) (opening-Spared env b r s opens h k)
  | inr direct ↦
      weaker env r b (handle env r s)
        (handle-Spared env (OnPayments-UpheldByKeys env) r s direct h k)
]

-- If nothing is pending in a session, then a request that ends in an exception, whichever it is,
-- leaves the committed tables of intents and of ledger entries as they were, or it is a creation of
-- a checkout session and has committed its intent with the two entries; and a request that returns
-- leaves them as they were, unless it is one of the mutating payment requests, a creation of a
-- checkout session or a webhook delivery.
pub get_db-Refuses :
    (env : Env) (r : Request) (s : Session)
    → s.db ≡ s.committed
    → Refuses r (tables s.committed) (get_db (handle env r) s)
unfolding get_db
get_db-Refuses env r s rests =
    let here : tables s.db ≡ tables s.committed = ap tables rests in
    ended env r (tables s.committed) (handle env r s) (
      refused env r (tables s.committed) (handle env r s)
        (handle-Leaves env (tables s.committed) r s here refl)
        (read_or_pays env r (tables s.committed) s here refl))
