-- ===== src/Payment/RefundConsistent.antt =====
-- The invariant of the books under `refund_intent`.
use ix_gateway.Prelude.{
  ℕ, String, Bool, true, false, not, ◌||◌, Option, some, List, [], ◌∷◌, ◌++◌, ◌≡◌, All-Row, Row,
  inl, ◌+◌, arith,
}
use ix_gateway.Prelude.Int.{ℤ, pos, ◌+ℤ◌, ◌-ℤ◌, leb_ℤ, ltb_ℤ}
use ix_gateway.Prelude.Text.{lower, truthy, concat}
use ix_gateway.Models.{Metadata, PaymentIntent, LedgerEntry, is_succeeded}
use ix_gateway.Env.{Env, create_refund_call}
use ix_gateway.Db.{Session}
use ix_gateway.Db.Query.{query_rule}
use ix_gateway.StripeClient.{create_refund, reply_result, sent}
use ix_gateway.Payment.{
  get_by_id, save_intent, payments_captured, customer_account, refund_checked, as_refund_failed,
  or_full, refund_intent,
}
use ix_gateway.Payment.Books.{IsSettled, captured, rows, captured-book}
use ix_gateway.Payment.Accounts.{customer_account-ne}
use ix_gateway.Payment.Settle.{settle_refund}
use ix_gateway.Payment.Upholds.{
  Upholds-ok, Upholds-raised, continue_rule, or_raise_rule, raise_if_rule,
}
use ix_gateway.Payment.Safe.{Holds, Safe, has_row-Row, book_rule}

not-false : (b : Bool) → not b ≡ false → b ≡ true
not-false b h = ground arith

or_false : (a b : Bool) → (a || b) ≡ false → b ≡ false
or_false a b h = ground arith

module _ (env : Env) where
  -- A refund lowers the captured position.
  module _ (n now : ℕ) (txn currency pid : String) (amount : ℤ) (description : Option String)
      (metadata : Metadata) (customer : Option String) (es : List LedgerEntry) where
    pub captured_refund :
        captured pid (
          es
          ++ rows env n now txn currency payments_captured
              (customer_account customer)
              pid
              amount
              description
              metadata)
        ≡ captured pid es +ℤ (pos 0 -ℤ amount)
    captured_refund = rw (customer_account-ne customer) at (
        captured-book env n now txn currency payments_captured (customer_account customer) pid
          amount description metadata es)

  refund_checked-Safe :
      (p : PaymentIntent) (sid : String) (amount : ℤ) (key : String) (reason : Option String)
      (s : Session)
      → Row p s.db.payment_intents
      → is_succeeded p.status ≡ true
      → ltb_ℤ (p.amount_received -ℤ p.amount_refunded) amount ≡ false
      → Holds s.db
      → Holds s.committed
      → Safe (refund_checked env p sid amount key reason s)
  unfolding refund_checked create_refund save_intent
  refund_checked-Safe p sid amount key reason s row paid fits h k =
      let call = create_refund_call sid key (some amount) (truthy reason) in
      continue_rule (as_refund_failed (reply_result (env.refunds s.calls call))) _ (sent call s) k
        λ refund _.
          book_rule env _ payments_captured (customer_account p.customer_id) amount p.currency _ _ p
            (record p { amount_refunded = p.amount_refunded +ℤ amount }) (sent call s)
            (has_row-Row p s.db.payment_intents row) h k
            (λ high.
              let (c, l, m, u) =
                All-Row (IsSettled s.db.ledger_entries) p s.db.payment_intents h.settled row in
              let (after, low, bound) =
                settle_refund _ _ p.amount_received p.amount_refunded amount
                  (captured_refund (s.uuids + 1) s.now (concat "tx_" (env.uuid_hex s.uuids))
                    (lower p.currency) p.id amount (some (concat "refund:" refund))
                    (("stripe_refund_id", some refund) ∷ ("reason", reason) ∷ []) p.customer_id
                    s.db.ledger_entries)
                  c l high fits in
              (after, low, bound, inl paid))
            (λ es t x y. Upholds-ok _ _ x x)

  -- Whatever Stripe answers, `refund_intent` keeps the books: if the tables are consistent
  -- before it, the committed tables are so after it, and those of the session too if it returns.
  pub refund_intent-Safe :
      (pid key : String) (amount : Option ℤ) (reason : Option String) (s : Session)
      → Holds s.db
      → Holds s.committed
      → Safe (refund_intent env pid key amount reason s)
  unfolding refund_intent get_by_id
  refund_intent-Safe pid key amount reason s h k =
      query_rule Safe _ s.db.payment_intents _ s (Upholds-raised _ _ k)
        (λ p row _.
          let refundable = p.amount_received -ℤ p.amount_refunded in
          raise_if_rule (not (is_succeeded p.status)) _ _ s k λ paid.
            or_raise_rule (truthy p.stripe_payment_intent_id) _ _ s k λ sid _.
              raise_if_rule (leb_ℤ refundable (pos 0)) _ _ s k λ _.
                raise_if_rule
                  (leb_ℤ (or_full amount refundable) (pos 0)
                    || ltb_ℤ refundable (or_full amount refundable))
                  _ _ s k
                  λ fits.
                    refund_checked-Safe p sid (or_full amount refundable) key reason s row
                      (not-false (is_succeeded p.status) paid)
                      (or_false (leb_ℤ (or_full amount refundable) (pos 0)) _ fits) h k)
        (Upholds-raised _ _ k)
