-- ===== src/Payment/CreateConsistent.antt =====
-- The invariant of the books under `create_intent`.
use ix_gateway.Prelude.{
  ℕ, String, false, Option, none, some, List, [], ◌∷◌, ◌++◌, ◌≡◌, refl, any, inl, inr, ◌+◌, arith,
  Bool-cases,
}
use ix_gateway.Prelude.Int.{ℤ, pos, ◌+ℤ◌, ◌-ℤ◌, leb_ℤ, int_laws}
use ix_gateway.Prelude.Text.{lower, concat}
use ix_gateway.Models.{Metadata, PaymentIntent, LedgerEntry, parse_status}
use ix_gateway.Env.{Env, create_intent_call}
use ix_gateway.Db.{Session, pure, commit, uuid4_hex, ◌>>◌}
use ix_gateway.Db.Query.{query_rule}
use ix_gateway.StripeClient.{create_payment_intent, reply_result, sent}
use ix_gateway.Payment.{
  PaymentIntentCreate, find_by_idempotency_key, conflicts, differs, add_intent, payments_authorised,
  customer_pending, create_new, create_or_replay, create_intent, new_intent,
}
use ix_gateway.Ledger.{pair, record_transaction}
use ix_gateway.Ledger.Record.{record_transaction-pair_ok, record_transaction-pair_raised}
use ix_gateway.Payment.Books.{IsConsistent, IsSettled, captured, rows, captured-book}
use ix_gateway.Payment.Books.Booking.{insert-IsConsistent}
use ix_gateway.Payment.Accounts.{customer_pending-ne}
use ix_gateway.Payment.Settle.{settle_beside}
use ix_gateway.Payment.Upholds.{Upholds-ok, Upholds-raised, continue_rule, or_raise_rule}
use ix_gateway.Payment.Safe.{Holds, Safe}

-- A new row is settled: nothing is captured, received or refunded.
settle_new :
    (p : PaymentIntent) (es : List LedgerEntry) (before : ℤ)
    → p.amount_received ≡ pos 0
    → p.amount_refunded ≡ pos 0
    → before ≡ pos 0
    → captured p.id es ≡ before +ℤ (pos 0 -ℤ pos 0)
    → IsSettled es p
settle_new p es before nr nf b a = (
  settle_beside (captured p.id es) before p.amount_received p.amount_refunded a
      (rw (b, nr, nf) (grind int_laws)),
  rw nf (omega arith),
  rw (nf, nr) (omega arith),
  inr nr,
)

module _ (env : Env) where
  module _ (n now : ℕ) (txn currency pid : String) (amount : ℤ) (description : Option String)
      (metadata : Metadata) (customer : Option String) (es : List LedgerEntry) where
    captured_accrual :
        captured pid (
          es
          ++ rows env n now txn currency
              (customer_pending customer)
              payments_authorised
              pid
              amount
              description
              metadata)
        ≡ captured pid es +ℤ (pos 0 -ℤ pos 0)
    captured_accrual = rw (customer_pending-ne customer) at (
        captured-book env n now txn currency (customer_pending customer) payments_authorised pid
          amount description metadata es)

  -- A new row and its accrual.
  accrue_rule :
      (payload : PaymentIntentCreate) (p : PaymentIntent) (s : Session)
      → p.amount_received ≡ pos 0
      → p.amount_refunded ≡ pos 0
      → any (conflicts p) s.db.payment_intents ≡ false
      → Holds s.db
      → Holds s.committed
      → Safe (
          (record_transaction env
                (pair (customer_pending payload.customer_id) payments_authorised payload.amount)
                payload.currency
                (some p.id)
                (some "payment_intent.created")
                []
                none
              >> (commit >> pure p))
            (record s { db = record s.db { payment_intents = s.db.payment_intents ++ p ∷ [] } }))
  accrue_rule payload p s nr nf fresh h k = elim (Bool-cases (leb_ℤ payload.amount (pos 0))) [
    | inl low ↦
        rw
          (record_transaction-pair_raised env (customer_pending payload.customer_id)
            payments_authorised payload.amount payload.currency (some p.id)
            (some "payment_intent.created") []
            (record s { db = record s.db { payment_intents = s.db.payment_intents ++ p ∷ [] } })
            low)
          (Upholds-raised _ _ k)
    | inr high ↦
        rw
          (record_transaction-pair_ok env (customer_pending payload.customer_id) payments_authorised
            payload.amount payload.currency (some p.id) (some "payment_intent.created") []
            (record s { db = record s.db { payment_intents = s.db.payment_intents ++ p ∷ [] } })
            high)
          (let books : IsConsistent _ _ =
              insert-IsConsistent env (s.uuids + 1) s.now (concat "tx_" (env.uuid_hex s.uuids))
                (lower payload.currency) (customer_pending payload.customer_id) payments_authorised
                payload.amount (some "payment_intent.created") [] p s.db.payment_intents
                s.db.ledger_entries h fresh
                (λ none_before.
                  settle_new p
                    (s.db.ledger_entries
                      ++ rows env (s.uuids + 1) s.now (concat "tx_" (env.uuid_hex s.uuids))
                          (lower payload.currency) (customer_pending payload.customer_id)
                          payments_authorised p.id payload.amount (some "payment_intent.created")
                          [])
                    (captured p.id s.db.ledger_entries) nr nf none_before
                    (captured_accrual (s.uuids + 1) s.now (concat "tx_" (env.uuid_hex s.uuids))
                      (lower payload.currency) p.id payload.amount (some "payment_intent.created")
                      [] payload.customer_id s.db.ledger_entries)) in
            record { books = (books, books) })
  ]

  create_new-Safe :
      (payload : PaymentIntentCreate) (merchant_id : Option String) (s : Session)
      → Holds s.db
      → Holds s.committed
      → Safe (create_new env payload merchant_id s)
  unfolding create_new create_payment_intent uuid4_hex add_intent
  create_new-Safe payload merchant_id s h k =
      let call =
        create_intent_call payload.amount payload.currency payload.customer_id payload.description
          payload.metadata payload.idempotency_key in
      continue_rule (reply_result (env.intents s.calls call)) _ (sent call s) k λ answer _.
        or_raise_rule (parse_status answer.status) _ _ (sent call s) k λ status _.
          let p = new_intent env payload merchant_id answer status (env.uuid_hex s.uuids) s.now in
          elim (Bool-cases (any (conflicts p) s.db.payment_intents)) [
            | inl taken ↦ rw taken (Upholds-raised _ _ k)
            | inr fresh ↦ rw fresh (
                accrue_rule payload p (record (sent call s) { uuids = s.uuids + 1 }) refl refl fresh
                  h k)
          ]

  -- Whatever Stripe answers, `create_intent` keeps the books: if the tables are consistent
  -- before it, the committed tables are so after it, and those of the session too if it returns.
  pub create_intent-Safe :
      (payload : PaymentIntentCreate) (merchant_id : Option String) (s : Session)
      → Holds s.db
      → Holds s.committed
      → Safe (create_intent env payload merchant_id s)
  unfolding create_intent create_or_replay find_by_idempotency_key
  create_intent-Safe payload merchant_id s h k =
      query_rule Safe _ s.db.payment_intents _ s (create_new-Safe payload merchant_id s h k)
        (λ p row _. elim (Bool-cases (differs p payload)) [
          | inl conflict ↦ rw conflict (Upholds-raised _ _ k)
          | inr same ↦ rw same (Upholds-ok _ _ h k)
        ])
        (Upholds-raised _ _ k)
