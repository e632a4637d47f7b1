-- ===== src/Gateway/Upholds.antt =====
-- An invariant of the payment service over every history of requests.
use ix_gateway.Prelude.{true, false, ◌≡◌, refl, ℕ, List, [], ◌∷◌, ◌≡◌}
use ix_gateway.Env.{Env}
use ix_gateway.Db.{Session, Result, Exec, ok, raised, get_db}
use ix_gateway.ApiKeys.Upholds.{UpheldByKeys}
use ix_gateway.Payment.Upholds.{Invariant, Meets, Upholds, UpheldByPayments, Upholds-ok, bind_rule}
use ix_gateway.Webhook.Upholds.{stripe_webhook-Upholds}
use ix_gateway.Api
use ix_gateway.Api.Dashboard
use ix_gateway.Webhook.{stripe_webhook}
use ix_gateway.HostedPage
use ix_gateway.Gateway.{
  Request, create_payment_intent, confirm_payment_intent, cancel_payment_intent,
  retrieve_payment_intent, refund_payment_intent, create_checkout_session,
  retrieve_checkout_session, hosted_checkout_page, get_transaction, get_balance, list_transactions,
  create_merchant, issue_api_key, list_api_keys, revoke_api_key, webhook, ignore, handle, serve,
  run, moves_money,
}

module _ {I : Invariant} where
  ignore-Upholds :
      {A : Type 0} (m : Exec A) (s : Session) → Upholds I (m s) → Upholds I (ignore m s)
  ignore-Upholds m s safe = let (r, t) = m s in bind_rule r _ t safe λ _ x y. Upholds-ok _ _ x y

  module _ (env : Env) (keys : UpheldByKeys I env) where
    -- The requests that move no money uphold whatever the payment service upholds.
    pub handle_read-Upholds :
        (r : Request) (s : Session)
        → moves_money r ≡ false
        → Meets I s.db
        → Meets I s.committed
        → Upholds I (handle env r s)
    unfolding handle
    handle_read-Upholds (retrieve_payment_intent c pid) s calm h k =
        ignore-Upholds (Api.retrieve_payment_intent env c pid) s
          (Api.Upholds.retrieve_payment_intent-Upholds env keys c s h k pid)
    handle_read-Upholds (retrieve_checkout_session c sid) s calm h k =
        ignore-Upholds (Api.retrieve_checkout_session env c sid) s
          (Api.Upholds.retrieve_checkout_session-Upholds env keys c s h k sid)
    handle_read-Upholds (hosted_checkout_page sid) s calm h k =
        ignore-Upholds
          (HostedPage.hosted_checkout_page env.checkout_message_html env.checkout_session_html
            env.stripe_publishable_key sid)
          s
          (HostedPage.Upholds.hosted_checkout_page-Upholds env.checkout_message_html
            env.checkout_session_html env.stripe_publishable_key sid s h k)
    handle_read-Upholds (get_transaction c pid) s calm h k =
        ignore-Upholds (Api.get_transaction env c pid) s
          (Api.Upholds.get_transaction-Upholds env keys c s h k pid)
    handle_read-Upholds (get_balance c) s calm h k =
        ignore-Upholds (Dashboard.get_balance env c) s
          (Api.Upholds.get_balance-Upholds env keys c s h k)
    handle_read-Upholds (list_transactions c q) s calm h k =
        ignore-Upholds (Dashboard.list_transactions env c q) s
          (Api.Upholds.list_transactions-Upholds env keys c s h k q)
    handle_read-Upholds (create_merchant a name email) s calm h k =
        ignore-Upholds (Api.create_merchant env a name email) s
          (Api.Upholds.create_merchant-Upholds env keys a s h k name email)
    handle_read-Upholds (issue_api_key a mid name) s calm h k =
        ignore-Upholds (Api.issue_api_key env a mid name) s
          (Api.Upholds.issue_api_key-Upholds env keys a s h k mid name)
    handle_read-Upholds (list_api_keys a mid) s calm h k =
        ignore-Upholds (Api.list_api_keys env a mid) s
          (Api.Upholds.list_api_keys-Upholds env keys a s h k mid)
    handle_read-Upholds (revoke_api_key a mid kid) s calm h k =
        ignore-Upholds (Api.revoke_api_key env a mid kid) s
          (Api.Upholds.revoke_api_key-Upholds env keys a s h k mid kid)
    handle_read-Upholds (create_payment_intent c body) s calm h k =
        let clash : true ≡ false = calm in cc
    handle_read-Upholds (confirm_payment_intent c pid body) s calm h k =
        let clash : true ≡ false = calm in cc
    handle_read-Upholds (cancel_payment_intent c pid body) s calm h k =
        let clash : true ≡ false = calm in cc
    handle_read-Upholds (refund_payment_intent c pid body) s calm h k =
        let clash : true ≡ false = calm in cc
    handle_read-Upholds (create_checkout_session c body) s calm h k =
        let clash : true ≡ false = calm in cc
    handle_read-Upholds (webhook signature body) s calm h k = let clash : true ≡ false = calm in cc

  module _ (env : Env) (keys : UpheldByKeys I env) (laws : UpheldByPayments I env) where
    handle-Upholds :
        (r : Request) (s : Session)
        → Meets I s.db
        → Meets I s.committed
        → Upholds I (handle env r s)
    unfolding handle
    handle-Upholds (create_payment_intent c body) s h k =
        ignore-Upholds (Api.create_payment_intent env c body) s
          (Api.Upholds.create_payment_intent-Upholds env keys laws c s h k body)
    handle-Upholds (confirm_payment_intent c pid body) s h k =
        ignore-Upholds (Api.confirm_payment_intent env c pid body) s
          (Api.Upholds.confirm_payment_intent-Upholds env keys laws c s h k pid body)
    handle-Upholds (cancel_payment_intent c pid body) s h k =
        ignore-Upholds (Api.cancel_payment_intent env c pid body) s
          (Api.Upholds.cancel_payment_intent-Upholds env keys laws c s h k pid body)
    handle-Upholds (refund_payment_intent c pid body) s h k =
        ignore-Upholds (Api.refund_payment_intent env c pid body) s
          (Api.Upholds.refund_payment_intent-Upholds env keys laws c s h k pid body)
    handle-Upholds (create_checkout_session c body) s h k =
        ignore-Upholds (Api.create_checkout_session env c body) s
          (Api.Upholds.create_checkout_session-Upholds env keys laws c s h k body)
    handle-Upholds (webhook signature body) s h k =
        ignore-Upholds (stripe_webhook env signature body) s
          (stripe_webhook-Upholds env laws signature body s h k)
    handle-Upholds (retrieve_payment_intent c pid) s h k =
        handle_read-Upholds env keys (retrieve_payment_intent c pid) s refl h k
    handle-Upholds (retrieve_checkout_session c sid) s h k =
        handle_read-Upholds env keys (retrieve_checkout_session c sid) s refl h k
    handle-Upholds (hosted_checkout_page sid) s h k =
        handle_read-Upholds env keys (hosted_checkout_page sid) s refl h k
    handle-Upholds (get_transaction c pid) s h k =
        handle_read-Upholds env keys (get_transaction c pid) s refl h k
    handle-Upholds (get_balance c) s h k = handle_read-Upholds env keys (get_balance c) s refl h k
    handle-Upholds (list_transactions c q) s h k =
        handle_read-Upholds env keys (list_transactions c q) s refl h k
    handle-Upholds (create_merchant a name email) s h k =
        handle_read-Upholds env keys (create_merchant a name email) s refl h k
    handle-Upholds (issue_api_key a mid name) s h k =
        handle_read-Upholds env keys (issue_api_key a mid name) s refl h k
    handle-Upholds (list_api_keys a mid) s h k =
        handle_read-Upholds env keys (list_api_keys a mid) s refl h k
    handle-Upholds (revoke_api_key a mid kid) s h k =
        handle_read-Upholds env keys (revoke_api_key a mid kid) s refl h k

    committed-Meets :
        {A : Type 0} (r : Result A) (t : Session) → Upholds I (r, t) → Meets I t.committed
    committed-Meets (ok a) t safe = safe.books.1
    committed-Meets (raised e) t safe = safe.books

    serve-Meets :
        (at : ℕ) (r : Request) (s : Session)
        → Meets I s.db
        → Meets I s.committed
        → Meets I (serve env (at, r) s).db × Meets I (serve env (at, r) s).committed
    unfolding serve get_db
    serve-Meets at r s h k =
        let (q, t) = handle env r (record s { now = at }) in
        let c = committed-Meets q t (handle-Upholds r (record s { now = at }) h k) in (c, c)

    -- An invariant that the payment service upholds is upheld by every history of requests,
    -- whatever Stripe answers and whichever requests fail.
    pub run-Meets :
        (rs : List (ℕ × Request)) (s : Session)
        → Meets I s.db
        → Meets I s.committed
        → Meets I (run env rs s).db × Meets I (run env rs s).committed
    unfolding run
    run-Meets [] s h k = (h, k)
    run-Meets ((at, r) ∷ rs) s h k =
        let (x, y) = serve-Meets at r s h k in run-Meets rs (serve env (at, r) s) x y
