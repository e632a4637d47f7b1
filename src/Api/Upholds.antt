-- ===== src/Api/Upholds.antt =====
-- An invariant of the payment service under the routes.
use ix_gateway.Prelude.{String, Option, not, Bool-cases, inl, inr, ◌==◌}
use ix_gateway.Env.{Env}
use ix_gateway.Db.{Session}
use ix_gateway.Db.Query.{query_rule}
use ix_gateway.Auth.{Credentials, require_api_key, require_admin_api_key}
use ix_gateway.Auth.Upholds.{require_api_key-Upholds, require_admin_api_key-Upholds}
use ix_gateway.Payment
use ix_gateway.Payment.{PaymentIntentCreate, PaymentIntentConfirm, PaymentIntentCancel}
use ix_gateway.Payment.Upholds.{
  Invariant, Meets, Upholds, UpheldByPayments, Upholds-ok, Upholds-raised, bind_rule, or_raise_rule,
  raise_if_rule,
}
use ix_gateway.Checkout.{CheckoutSessionCreate, get_open_session}
use ix_gateway.Checkout.Upholds.{get_open_session-Upholds, create_session-Upholds}
use ix_gateway.ApiKeys.Upholds.{UpheldByKeys}
use ix_gateway.Merchants
use ix_gateway.Merchants.Upholds.{get_merchant-Upholds}
use ix_gateway.Schemas.{
  RefundCreate, check_create, check_confirm, check_cancel, check_refund, check_session,
  check_merchant, check_key_name,
}
use ix_gateway.Ledger.{is_value, list_entries_for_intent}
use ix_gateway.Api
use ix_gateway.Ledger.Balances.{get_balances_by_currency}
use ix_gateway.Api.Dashboard
use ix_gateway.Api.Dashboard.{TransactionQuery, check_query}

module _ {I : Invariant} where
  module _ (env : Env) (keys : UpheldByKeys I env) (laws : UpheldByPayments I env)
      (header : Option Credentials) (s : Session) (h : Meets I s.db) (k : Meets I s.committed) where
    pub create_payment_intent-Upholds :
        (body : PaymentIntentCreate) → Upholds I (Api.create_payment_intent env header body s)
    unfolding Api.create_payment_intent
    create_payment_intent-Upholds body =
        let (r, t) = require_api_key env header s in
        bind_rule r _ t (require_api_key-Upholds env keys header s h k) λ merchant x y.
          or_raise_rule (check_create body) _ _ t y λ payload _. laws.creates payload _ t x y

    pub confirm_payment_intent-Upholds :
        (pid : String) (body : PaymentIntentConfirm)
        → Upholds I (Api.confirm_payment_intent env header pid body s)
    unfolding Api.confirm_payment_intent
    confirm_payment_intent-Upholds pid body =
        let (r, t) = require_api_key env header s in
        bind_rule r _ t (require_api_key-Upholds env keys header s h k) λ merchant x y.
          or_raise_rule (check_confirm body) _ _ t y λ payload _. laws.confirms pid payload t x y

    pub cancel_payment_intent-Upholds :
        (pid : String) (body : PaymentIntentCancel)
        → Upholds I (Api.cancel_payment_intent env header pid body s)
    unfolding Api.cancel_payment_intent
    cancel_payment_intent-Upholds pid body =
        let (r, t) = require_api_key env header s in
        bind_rule r _ t (require_api_key-Upholds env keys header s h k) λ merchant x y.
          or_raise_rule (check_cancel body) _ _ t y λ payload _. laws.cancels pid payload t x y

    pub refund_payment_intent-Upholds :
        (pid : String) (body : RefundCreate)
        → Upholds I (Api.refund_payment_intent env header pid body s)
    unfolding Api.refund_payment_intent
    refund_payment_intent-Upholds pid body =
        let (r, t) = require_api_key env header s in
        bind_rule r _ t (require_api_key-Upholds env keys header s h k) λ merchant x y.
          or_raise_rule (check_refund body) _ _ t y λ payload _. laws.refunds pid _ _ _ t x y

    pub create_checkout_session-Upholds :
        (body : CheckoutSessionCreate) → Upholds I (Api.create_checkout_session env header body s)
    unfolding Api.create_checkout_session
    create_checkout_session-Upholds body =
        let (r, t) = require_api_key env header s in
        bind_rule r _ t (require_api_key-Upholds env keys header s h k) λ merchant x y.
          or_raise_rule (check_session body) _ _ t y
            λ payload _. create_session-Upholds env laws merchant payload t x y

  module _ (env : Env) (keys : UpheldByKeys I env) (header : Option Credentials) (s : Session)
      (h : Meets I s.db) (k : Meets I s.committed) where
    pub retrieve_payment_intent-Upholds :
        (pid : String) → Upholds I (Api.retrieve_payment_intent env header pid s)
    unfolding Api.retrieve_payment_intent Payment.get_by_id
    retrieve_payment_intent-Upholds pid =
        let (r, t) = require_api_key env header s in
        bind_rule r _ t (require_api_key-Upholds env keys header s h k) λ merchant x y.
          query_rule (Upholds I) _ t.db.payment_intents _ t (Upholds-raised _ _ y)
            (λ p _ _. Upholds-ok _ _ x y) (Upholds-raised _ _ y)

    pub retrieve_checkout_session-Upholds :
        (sid : String) → Upholds I (Api.retrieve_checkout_session env header sid s)
    unfolding Api.retrieve_checkout_session
    retrieve_checkout_session-Upholds sid =
        let (r, t) = require_api_key env header s in
        bind_rule r _ t (require_api_key-Upholds env keys header s h k) λ merchant x y.
          let (q, u) = get_open_session sid t in
          bind_rule q _ u (get_open_session-Upholds sid t x y) λ c v w.
            elim (Bool-cases (c.merchant_id == merchant.id)) [
              | inl own ↦ rw own (Upholds-ok _ _ v w)
              | inr other ↦ rw other (Upholds-raised _ _ w)
            ]

    pub get_transaction-Upholds : (pid : String) → Upholds I (Api.get_transaction env header pid s)
    unfolding Api.get_transaction Payment.get_by_id list_entries_for_intent
    get_transaction-Upholds pid =
        let (r, t) = require_api_key env header s in
        bind_rule r _ t (require_api_key-Upholds env keys header s h k) λ merchant x y.
          query_rule (Upholds I) _ t.db.payment_intents _ t (Upholds-raised _ _ y)
            (λ p _ _. elim (Bool-cases (is_value p.merchant_id merchant.id)) [
              | inl own ↦ rw own (Upholds-ok _ _ x y)
              | inr other ↦ rw other (Upholds-raised _ _ y)
            ])
            (Upholds-raised _ _ y)

    pub get_balance-Upholds : Upholds I (Dashboard.get_balance env header s)
    unfolding Dashboard.get_balance get_balances_by_currency
    get_balance-Upholds =
        let (r, t) = require_api_key env header s in
        bind_rule r _ t (require_api_key-Upholds env keys header s h k)
          λ merchant x y. Upholds-ok _ _ x y

    pub list_transactions-Upholds :
        (q : TransactionQuery) → Upholds I (Dashboard.list_transactions env header q s)
    unfolding Dashboard.list_transactions Dashboard.transactions_page
    list_transactions-Upholds q =
        let (r, t) = require_api_key env header s in
        bind_rule r _ t (require_api_key-Upholds env keys header s h k)
          λ merchant x y. or_raise_rule (check_query q) _ _ t y λ bounds checked. Upholds-ok _ _ x y

  module _ (env : Env) (keys : UpheldByKeys I env) (admin : Option String) (s : Session)
      (h : Meets I s.db) (k : Meets I s.committed) where
    pub create_merchant-Upholds :
        (name email : String) → Upholds I (Api.create_merchant env admin name email s)
    unfolding Api.create_merchant
    create_merchant-Upholds name email =
        let (r, t) = require_admin_api_key env admin s in
        bind_rule r _ t (require_admin_api_key-Upholds env admin s h k) λ _ x y.
          raise_if_rule (not (check_merchant name email)) _ _ t y
            λ _. Merchants.Upholds.create_merchant-Upholds env name email t x y

    pub issue_api_key-Upholds :
        (mid name : String) → Upholds I (Api.issue_api_key env admin mid name s)
    unfolding Api.issue_api_key
    issue_api_key-Upholds mid name =
        let (r, t) = require_admin_api_key env admin s in
        bind_rule r _ t (require_admin_api_key-Upholds env admin s h k) λ _ x y.
          raise_if_rule (not (check_key_name name)) _ _ t y λ _.
            let (q, u) = Merchants.get_merchant mid t in
            bind_rule q _ u (get_merchant-Upholds mid t x y) λ _ v w. keys.issues mid name u v w

    pub list_api_keys-Upholds : (mid : String) → Upholds I (Api.list_api_keys env admin mid s)
    unfolding Api.list_api_keys Merchants.list_api_keys
    list_api_keys-Upholds mid =
        let (r, t) = require_admin_api_key env admin s in
        bind_rule r _ t (require_admin_api_key-Upholds env admin s h k) λ _ x y.
          let (q, u) = Merchants.get_merchant mid t in
          bind_rule q _ u (get_merchant-Upholds mid t x y) λ _ v w. Upholds-ok _ _ v w

    pub revoke_api_key-Upholds :
        (mid kid : String) → Upholds I (Api.revoke_api_key env admin mid kid s)
    unfolding Api.revoke_api_key
    revoke_api_key-Upholds mid kid =
        let (r, t) = require_admin_api_key env admin s in
        bind_rule r _ t (require_admin_api_key-Upholds env admin s h k)
          λ _ x y. keys.revokes kid mid t x y
