-- ===== src/Payment/KeepsKeys.antt =====
-- The operations of the payment service leave the API keys as they are.
use ix_gateway.Prelude.{String, not, ◌||◌, Option, some, List, any, inl, inr, Bool-cases}
use ix_gateway.Prelude.Int.{ℤ, pos, ◌-ℤ◌, leb_ℤ, ltb_ℤ}
use ix_gateway.Prelude.Text.{truthy}
use ix_gateway.Models.{
  Metadata, LedgerEntry, ApiKey, is_succeeded, is_canceled, is_terminal, parse_status,
}
use ix_gateway.Env.{
  Env, create_intent_call, confirm_intent_call, cancel_intent_call, create_refund_call,
}
use ix_gateway.Db.{Session, Exec, uuid4_hex, ◌>>=◌}
use ix_gateway.Db.Query.{query_rule}
use ix_gateway.StripeClient.{
  create_payment_intent, confirm_payment_intent, cancel_payment_intent, create_refund, reply_result,
  sent,
}
use ix_gateway.Ledger.{pair, record_transaction}
use ix_gateway.Ledger.Record.{record_transaction-pair_ok, record_transaction-pair_raised}
use ix_gateway.Payment.{
  PaymentIntentCreate, PaymentIntentConfirm, PaymentIntentCancel, find_by_idempotency_key,
  get_by_id, find_by_stripe_id, add_intent, save_intent, conflicts, differs, new_intent, create_new,
  create_or_replay, create_intent, confirm_open, confirm_intent, cancel_open, cancel_intent,
  capture, apply_succeeded_event, as_refund_failed, or_full, refund_checked, refund_intent, none,
}
use ix_gateway.Payment.Upholds.{
  OnKeys, Meets, Upholds, UpheldByPayments, Upholds-ok, Upholds-raised, continue_rule,
  or_raise_rule, raise_if_rule,
}

module _ (K : List ApiKey → Type 0) (env : Env) where
  record_rule :
      {A : Type 0} (finish : List LedgerEntry → Exec A) (from to : String) (amount : ℤ)
      (currency : String) (pid description : Option String) (metadata : Metadata) (s : Session)
      → Meets (OnKeys K) s.db
      → Meets (OnKeys K) s.committed
      → ((es : List LedgerEntry) (t : Session)
          → Meets (OnKeys K) t.db
          → Meets (OnKeys K) t.committed
          → Upholds (OnKeys K) (finish es t))
      → Upholds (OnKeys K) (
          (record_transaction env (pair from to amount) currency pid description metadata none
              >>= finish)
            s)
  record_rule finish from to amount currency pid description metadata s h k done =
      elim (Bool-cases (leb_ℤ amount (pos 0))) [
        | inl low ↦
            rw
              (record_transaction-pair_raised env from to amount currency pid description metadata s
                low)
              (Upholds-raised _ _ k)
        | inr high ↦
            rw
              (record_transaction-pair_ok env from to amount currency pid description metadata s
                high)
              (done _ _ h k)
      ]

  create_new-OnKeys :
      (payload : PaymentIntentCreate) (mid : Option String) (s : Session)
      → Meets (OnKeys K) s.db
      → Meets (OnKeys K) s.committed
      → Upholds (OnKeys K) (create_new env payload mid s)
  unfolding create_new create_payment_intent uuid4_hex add_intent
  create_new-OnKeys payload mid s h k =
      let call =
        create_intent_call payload.amount payload.currency payload.customer_id payload.description
          payload.metadata payload.idempotency_key in
      continue_rule (reply_result (env.intents s.calls call)) _ (sent call s) k λ answer _.
        or_raise_rule (parse_status answer.status) _ _ (sent call s) k λ status _.
          let p = new_intent env payload mid answer status (env.uuid_hex s.uuids) s.now in
          elim (Bool-cases (any (conflicts p) s.db.payment_intents)) [
            | inl taken ↦ rw taken (Upholds-raised _ _ k)
            | inr fresh ↦
                rw fresh (record_rule _ _ _ _ _ _ _ _ _ h k (λ es t x y. Upholds-ok _ _ x x))
          ]

  create_intent-OnKeys :
      (payload : PaymentIntentCreate) (mid : Option String) (s : Session)
      → Meets (OnKeys K) s.db
      → Meets (OnKeys K) s.committed
      → Upholds (OnKeys K) (create_intent env payload mid s)
  unfolding create_intent create_or_replay find_by_idempotency_key
  create_intent-OnKeys payload mid s h k =
      query_rule (Upholds (OnKeys K)) _ s.db.payment_intents _ s
        (create_new-OnKeys payload mid s h k)
        (λ p row _. elim (Bool-cases (differs p payload)) [
          | inl conflict ↦ rw conflict (Upholds-raised _ _ k)
          | inr same ↦ rw same (Upholds-ok _ _ h k)
        ])
        (Upholds-raised _ _ k)

  confirm_intent-OnKeys :
      (pid : String) (payload : PaymentIntentConfirm) (s : Session)
      → Meets (OnKeys K) s.db
      → Meets (OnKeys K) s.committed
      → Upholds (OnKeys K) (confirm_intent env pid payload s)
  unfolding confirm_intent get_by_id confirm_open confirm_payment_intent save_intent
  confirm_intent-OnKeys pid payload s h k =
      query_rule (Upholds (OnKeys K)) _ s.db.payment_intents _ s (Upholds-raised _ _ k)
        (λ p row _. elim (Bool-cases (is_terminal p.status)) [
          | inl early ↦ rw early (Upholds-ok _ _ h k)
          | inr late ↦ rw late (
              or_raise_rule (truthy p.stripe_payment_intent_id) _ _ s k λ sid _.
                let call =
                  confirm_intent_call sid payload.payment_method_id payload.idempotency_key in
                continue_rule (reply_result (env.intents s.calls call)) _ (sent call s) k
                  λ answer _.
                    or_raise_rule (parse_status answer.status) _ _ (sent call s) k
                      λ status _. record { books = (h, h) })
        ])
        (Upholds-raised _ _ k)

  cancel_intent-OnKeys :
      (pid : String) (payload : PaymentIntentCancel) (s : Session)
      → Meets (OnKeys K) s.db
      → Meets (OnKeys K) s.committed
      → Upholds (OnKeys K) (cancel_intent env pid payload s)
  unfolding cancel_intent get_by_id cancel_open cancel_payment_intent save_intent
  cancel_intent-OnKeys pid payload s h k =
      query_rule (Upholds (OnKeys K)) _ s.db.payment_intents _ s (Upholds-raised _ _ k)
        (λ p row _. elim (Bool-cases (is_canceled p.status)) [
          | inl early ↦ rw early (Upholds-ok _ _ h k)
          | inr late ↦ rw late (
              raise_if_rule (is_succeeded p.status) _ _ s k λ unpaid.
                or_raise_rule (truthy p.stripe_payment_intent_id) _ _ s k λ sid _.
                  let call =
                    cancel_intent_call sid payload.idempotency_key (truthy payload.reason) in
                  continue_rule (reply_result (env.intents s.calls call)) _ (sent call s) k
                    λ answer _.
                      or_raise_rule (parse_status answer.status) _ _ (sent call s) k λ status _.
                        record_rule _ _ _ _ _ _ _ _ _ h k (λ es t x y. Upholds-ok _ _ x x))
        ])
        (Upholds-raised _ _ k)

  refund_intent-OnKeys :
      (pid key : String) (amount : Option ℤ) (reason : Option String) (s : Session)
      → Meets (OnKeys K) s.db
      → Meets (OnKeys K) s.committed
      → Upholds (OnKeys K) (refund_intent env pid key amount reason s)
  unfolding refund_intent get_by_id refund_checked create_refund save_intent
  refund_intent-OnKeys pid key amount reason s h k =
      query_rule (Upholds (OnKeys K)) _ s.db.payment_intents _ s (Upholds-raised _ _ k)
        (λ p row _.
          let refundable = p.amount_received -ℤ p.amount_refunded in
          let n = or_full amount refundable in
          raise_if_rule (not (is_succeeded p.status)) _ _ s k λ paid.
            or_raise_rule (truthy p.stripe_payment_intent_id) _ _ s k λ sid _.
              raise_if_rule (leb_ℤ refundable (pos 0)) _ _ s k λ _.
                raise_if_rule (leb_ℤ n (pos 0) || ltb_ℤ refundable n) _ _ s k λ fits.
                  let call = create_refund_call sid key (some n) (truthy reason) in
                  continue_rule (as_refund_failed (reply_result (env.refunds s.calls call))) _
                    (sent call s) k
                    λ refund _. record_rule _ _ _ _ _ _ _ _ _ h k (λ es t x y. Upholds-ok _ _ x x))
        (Upholds-raised _ _ k)

  apply_succeeded_event-OnKeys :
      (sid : String) (amount : ℤ) (s : Session)
      → Meets (OnKeys K) s.db
      → Meets (OnKeys K) s.committed
      → Upholds (OnKeys K) (apply_succeeded_event env sid amount s)
  unfolding apply_succeeded_event find_by_stripe_id capture save_intent
  apply_succeeded_event-OnKeys sid amount s h k =
      query_rule (Upholds (OnKeys K)) _ s.db.payment_intents _ s (Upholds-ok _ _ h k)
        (λ p row _. elim (Bool-cases (is_succeeded p.status)) [
          | inl paid ↦ rw paid (Upholds-ok _ _ h k)
          | inr unpaid ↦
              rw unpaid (record_rule _ _ _ _ _ _ _ _ _ h k (λ es t x y. Upholds-ok _ _ x y))
        ])
        (Upholds-raised _ _ k)

  pub OnKeys-UpheldByPayments : UpheldByPayments (OnKeys K) env
  OnKeys-UpheldByPayments = record {
    creates = create_intent-OnKeys;
    confirms = confirm_intent-OnKeys;
    cancels = cancel_intent-OnKeys;
    refunds = refund_intent-OnKeys;
    captures = apply_succeeded_event-OnKeys;
  }
