-- ===== src/Payment/CreateDue.antt =====
-- An order that is new goes through.
use ix_gateway.Prelude.Text.{count}
use ix_gateway.Prelude.{
  ℕ, Bool, true, leb, ◌&&◌, none, String, false, Option, some, [], ◌∷◌, ◌++◌, ◌≡◌, any, inl, inr,
  ◌+◌, ⊤,
}
use ix_gateway.Prelude.Int.{pos, leb_ℤ}
use ix_gateway.Models.{PaymentIntent, PaymentIntentStatus, parse_status}
use ix_gateway.Env.{Env, StripeIntent}
use ix_gateway.Db.{Session, Result, ok, raised, uuid4_hex}
use ix_gateway.StripeClient.{create_payment_intent, reply_result, sent}
use ix_gateway.Ledger.Record.{record_transaction-pair_ok}
use ix_gateway.Payment.{
  PaymentIntentCreate, find_by_idempotency_key, conflicts, add_intent, payments_authorised,
  customer_pending, new_intent, create_new, create_or_replay, create_intent,
}
use ix_gateway.Payment.CreateOutcome.{
  rows_of, call_of, CreatesRow, CreateOutcomes, create_intent-CreateOutcomes,
}

-- The call has created a row.
abbrev pub HasCreated :
    Env → PaymentIntentCreate → Option String → Session → Result PaymentIntent × Session → Type 0
HasCreated env payload mid s (raised _, t) = ⊥
HasCreated env payload mid s (ok p, t) = CreatesRow env payload mid s p t

abbrev fits : ℕ → Option String → Bool
fits n none = true
fits n (some text) = leb (count text) n

-- The columns of app/models/payment_intent.py and `account` of app/models/ledger.py hold the row and
-- the name of its account. A flush of the model takes every text, and PostgreSQL those that fit.
abbrev pub is_storable : PaymentIntent → (account : String) → Bool
is_storable p account =
    fits 64 (some p.id)
    && fits 255 p.stripe_payment_intent_id
    && fits 255 (some p.idempotency_key)
    && fits 3 (some p.currency)
    && fits 255 p.customer_id
    && fits 1024 p.description
    && fits 512 p.client_secret
    && leb_ℤ p.amount (pos 9223372036854775807)
    && fits 128 (some account)

abbrev Returns : Result PaymentIntent × Session → Type 0
Returns (raised _, t) = ⊥
Returns (ok _, t) = ⊤

module _ (env : Env) (payload : PaymentIntentCreate) (mid : Option String) (s : Session)
    (absent : rows_of payload.idempotency_key s ≡ []) where
  created :
      (o : Result PaymentIntent × Session)
      → Returns o
      → CreateOutcomes env payload mid s o
      → HasCreated env payload mid s o
  created (raised e, t) r d = r
  created (ok p, t) r (inl (one, _, _)) =
      let none_there : ⊥ = (let clash : [] ≡ p ∷ [] = rw absent at one in cc) in absurd none_there
  created (ok p, t) r (inr row) = row

  module _ (answer : StripeIntent) (status : PaymentIntentStatus)
      (answered : reply_result (env.intents s.calls (call_of payload)) ≡ ok answer)
      (parsed : parse_status answer.status ≡ some status)
      (fresh : any
          (conflicts (new_intent env payload mid answer status (env.uuid_hex s.uuids) s.now))
          s.db.payment_intents
        ≡ false)
      (positive : leb_ℤ payload.amount (pos 0) ≡ false)
      (storable : is_storable
          (new_intent env payload mid answer status (env.uuid_hex s.uuids) s.now)
          (customer_pending payload.customer_id)
        ≡ true) where
    abbrev new_row : PaymentIntent
    new_row = new_intent env payload mid answer status (env.uuid_hex s.uuids) s.now

    -- If the idempotency key has no row, Stripe accepts the order with a status that is known, the
    -- new row would repeat no unique column and is not too large for the columns, nor is the name of
    -- the customer's account, and the amount is positive, then `create_intent` always creates the
    -- row, with its two entries, and commits it.
    pub create_intent-HasCreated : HasCreated env payload mid s (create_intent env payload mid s)
    unfolding create_intent create_or_replay find_by_idempotency_key create_new
        create_payment_intent uuid4_hex add_intent
    create_intent-HasCreated =
        created (create_intent env payload mid s)
          (rw
            (
              absent,
              answered,
              parsed,
              fresh,
              record_transaction-pair_ok env (customer_pending payload.customer_id)
                  payments_authorised payload.amount payload.currency (some new_row.id)
                  (some "payment_intent.created") []
                  (record (sent (call_of payload) s) {
                    db = record s.db { payment_intents = s.db.payment_intents ++ new_row ∷ [] };
                    uuids = s.uuids + 1;
                  })
                  positive,
            )
            tt)
          (create_intent-CreateOutcomes env payload mid s)
