-- ===== src/Payment/Consistent.antt =====
-- The invariant of the books under the operations of app/services/payment.py.
use ix_gateway.Prelude.{
  ℕ, String, false, Option, some, List, [], ◌++◌, ◌≡◌, refl, All-Row, Row, inl, inr, ◌+◌, arith,
  Bool-cases,
}
use ix_gateway.Prelude.Int.{ℤ, pos, ◌+ℤ◌, ◌-ℤ◌}
use ix_gateway.Prelude.Text.{lower, truthy, concat}
use ix_gateway.Models.{
  Metadata, PaymentIntent, PaymentIntentStatus, LedgerEntry, is_succeeded, is_terminal, is_canceled,
  succeeded, parse_status,
}
use ix_gateway.Env.{Env, confirm_intent_call, cancel_intent_call}
use ix_gateway.Db.{Session}
use ix_gateway.Db.Query.{query_rule}
use ix_gateway.StripeClient.{confirm_payment_intent, cancel_payment_intent, reply_result, sent}
use ix_gateway.Payment.{
  PaymentIntentConfirm, PaymentIntentCancel, get_by_id, find_by_stripe_id, save_intent, stamped,
  payments_authorised, payments_captured, customer_pending, capture, apply_succeeded_event,
  confirm_open, confirm_intent, cancel_open, cancel_intent,
}
use ix_gateway.Payment.Books.{IsConsistent, IsSettled, captured, rows, captured-book}
use ix_gateway.Payment.Books.Booking.{update-IsConsistent}
use ix_gateway.Payment.Accounts.{customer_pending-ne}
use ix_gateway.Payment.RefundConsistent.{refund_intent-Safe}
use ix_gateway.Payment.CreateConsistent.{create_intent-Safe}
use ix_gateway.Payment.Settle.{settle_capture, settle_beside, not_received}
use ix_gateway.Payment.Upholds.{
  OnPayments, UpheldByPayments, Upholds-ok, Upholds-raised, continue_rule, or_raise_rule,
  raise_if_rule,
}
use ix_gateway.Payment.Safe.{Holds, Safe, has_row-Row, book_rule}

not_terminal :
    (status : PaymentIntentStatus) → is_terminal status ≡ false → is_succeeded status ≡ false
not_terminal status h = ground arith

module _ (env : Env) where
  -- Cancelling an authorisation leaves the captured position.
  module _ (n now : ℕ) (txn currency pid : String) (amount : ℤ) (description : Option String)
      (metadata : Metadata) (customer : Option String) (es : List LedgerEntry) where
    captured_beside :
        captured pid (
          es
          ++ rows env n now txn currency payments_authorised
              (customer_pending customer)
              pid
              amount
              description
              metadata)
        ≡ captured pid es +ℤ (pos 0 -ℤ pos 0)
    captured_beside = rw (customer_pending-ne customer) at (
        captured-book env n now txn currency payments_authorised (customer_pending customer) pid
          amount description metadata es)

  pub capture-Safe :
      (p : PaymentIntent) (amount : ℤ) (s : Session)
      → Row p s.db.payment_intents
      → is_succeeded p.status ≡ false
      → Holds s.db
      → Holds s.committed
      → Safe (capture env p amount s)
  unfolding capture save_intent
  capture-Safe p amount s row unpaid h k =
      book_rule env _ payments_authorised payments_captured amount p.currency
        (some "payment_intent.succeeded") [] p
        (record p { status = succeeded; amount_received = amount }) s
        (has_row-Row p s.db.payment_intents row) h k
        (λ high.
          let (c, l, m, u) =
            All-Row (IsSettled s.db.ledger_entries) p s.db.payment_intents h.settled row in
          let (after, bound) =
            settle_capture _ _ p.amount_received p.amount_refunded amount
              (captured-book env (s.uuids + 1) s.now (concat "tx_" (env.uuid_hex s.uuids))
                (lower p.currency) payments_authorised payments_captured p.id amount
                (some "payment_intent.succeeded") [] s.db.ledger_entries)
              c l m (not_received p unpaid u) high in
          (after, l, bound, inl refl))
        (λ es. Upholds-ok _)

  pub apply_succeeded_event-Safe :
      (sid : String) (amount : ℤ) (s : Session)
      → Holds s.db
      → Holds s.committed
      → Safe (apply_succeeded_event env sid amount s)
  unfolding apply_succeeded_event find_by_stripe_id
  apply_succeeded_event-Safe sid amount s h k =
      query_rule Safe _ s.db.payment_intents _ s (Upholds-ok _ _ h k)
        (λ p row _. elim (Bool-cases (is_succeeded p.status)) [
          | inl paid ↦ rw paid (Upholds-ok _ _ h k)
          | inr unpaid ↦ rw unpaid (capture-Safe p amount s row unpaid h k)
        ])
        (Upholds-raised _ _ k)

  confirm_open-Safe :
      (p : PaymentIntent) (payload : PaymentIntentConfirm) (s : Session)
      → Row p s.db.payment_intents
      → is_succeeded p.status ≡ false
      → Holds s.db
      → Holds s.committed
      → Safe (confirm_open env p payload s)
  unfolding confirm_open confirm_payment_intent save_intent
  confirm_open-Safe p payload s row unpaid h k =
      or_raise_rule (truthy p.stripe_payment_intent_id) _ _ s k λ sid _.
        let call = confirm_intent_call sid payload.payment_method_id payload.idempotency_key in
        continue_rule (reply_result (env.intents s.calls call)) _ (sent call s) k λ answer _.
          or_raise_rule (parse_status answer.status) _ _ (sent call s) k λ status _.
            let (c, l, m, u) =
              All-Row (IsSettled s.db.ledger_entries) p s.db.payment_intents h.settled row in
            let books : IsConsistent _ _ =
              update-IsConsistent (stamped s.now p (record p { status = status }))
                s.db.payment_intents s.db.ledger_entries h
                (c, l, m, inr (not_received p unpaid u)) in
            record { books = (books, books) }

  pub confirm_intent-Safe :
      (pid : String) (payload : PaymentIntentConfirm) (s : Session)
      → Holds s.db
      → Holds s.committed
      → Safe (confirm_intent env pid payload s)
  unfolding confirm_intent get_by_id
  confirm_intent-Safe pid payload s h k =
      query_rule Safe _ s.db.payment_intents _ s (Upholds-raised _ _ k)
        (λ p row _. elim (Bool-cases (is_terminal p.status)) [
          | inl early ↦ rw early (Upholds-ok _ _ h k)
          | inr late ↦ rw late (confirm_open-Safe p payload s row (not_terminal p.status late) h k)
        ])
        (Upholds-raised _ _ k)

  cancel_open-Safe :
      (p : PaymentIntent) (payload : PaymentIntentCancel) (s : Session)
      → Row p s.db.payment_intents
      → Holds s.db
      → Holds s.committed
      → Safe (cancel_open env p payload s)
  unfolding cancel_open cancel_payment_intent save_intent
  cancel_open-Safe p payload s row h k = raise_if_rule (is_succeeded p.status) _ _ s k λ unpaid.
      or_raise_rule (truthy p.stripe_payment_intent_id) _ _ s k λ sid _.
        let call = cancel_intent_call sid payload.idempotency_key (truthy payload.reason) in
        continue_rule (reply_result (env.intents s.calls call)) _ (sent call s) k λ answer _.
          or_raise_rule (parse_status answer.status) _ _ (sent call s) k λ status _.
            book_rule env _ payments_authorised (customer_pending p.customer_id) p.amount p.currency
              (some "payment_intent.canceled") [] p (record p { status = status }) (sent call s)
              (has_row-Row p s.db.payment_intents row) h k
              (λ high.
                let (c, l, m, u) =
                  All-Row (IsSettled s.db.ledger_entries) p s.db.payment_intents h.settled row in
                (
                  settle_beside _ _ p.amount_received p.amount_refunded
                      (captured_beside (s.uuids + 1) s.now (concat "tx_" (env.uuid_hex s.uuids))
                        (lower p.currency) p.id p.amount (some "payment_intent.canceled") []
                        p.customer_id s.db.ledger_entries)
                      c,
                  l,
                  m,
                  inr (not_received p unpaid u),
                ))
              (λ es t x y. Upholds-ok _ _ x x)

  -- Whatever Stripe answers, `cancel_intent` keeps the books: if the tables are consistent
  -- before it, the committed tables are so after it, and those of the session too if it returns.
  pub cancel_intent-Safe :
      (pid : String) (payload : PaymentIntentCancel) (s : Session)
      → Holds s.db
      → Holds s.committed
      → Safe (cancel_intent env pid payload s)
  unfolding cancel_intent get_by_id
  cancel_intent-Safe pid payload s h k =
      query_rule Safe _ s.db.payment_intents _ s (Upholds-raised _ _ k)
        (λ p row _. elim (Bool-cases (is_canceled p.status)) [
          | inl early ↦ rw early (Upholds-ok _ _ h k)
          | inr late ↦ rw late (cancel_open-Safe p payload s row h k)
        ])
        (Upholds-raised _ _ k)

  -- The operations of the service keep the books.
  pub IsConsistent-payments : UpheldByPayments (OnPayments IsConsistent) env
  IsConsistent-payments = record {
    creates = create_intent-Safe env;
    confirms = confirm_intent-Safe;
    cancels = cancel_intent-Safe;
    refunds = refund_intent-Safe env;
    captures = apply_succeeded_event-Safe;
  }
