-- ===== src/Payment/CreateOutcome.antt =====
-- What `create_intent` does, by how it ends.
use ix_gateway.Prelude.{
  String, false, Option, some, List, [], ◌∷◌, ◌++◌, ◌≡◌, refl, inl, inr, ◌⊎◌, any, select,
  Bool-cases, ◌==◌, ◌+◌,
}
use ix_gateway.Prelude.Int.{above_zero, pos, ◌<ℤ◌, leb_ℤ}
use ix_gateway.Models.{PaymentIntent, PaymentIntentStatus, parse_status}
use ix_gateway.Env.{Env, StripeCall, StripeIntent, create_intent_call}
use ix_gateway.Db.{Session, Result, ok, raised, uuid4_hex}
use ix_gateway.Db.Query.{scalar_cases, continue_cases, or_raise_cases}
use ix_gateway.StripeClient.{reply_result, sent, create_payment_intent}
use ix_gateway.Ledger.Record.{
  record_transaction-pair_ok, record_transaction-pair_raised, pair_entries,
}
use ix_gateway.Payment.{
  PaymentIntentCreate, find_by_idempotency_key, conflicts, add_intent, payments_authorised,
  customer_pending, differs, new_intent, create_new, create_or_replay, create_intent,
}

-- The rows that an idempotency key has.
abbrev pub rows_of : String → Session → List PaymentIntent
rows_of key s = select (λ p. p.idempotency_key == key) s.db.payment_intents

-- The request that Stripe has for an order, with the idempotency key.
abbrev pub call_of : PaymentIntentCreate → StripeCall
call_of payload =
    create_intent_call payload.amount payload.currency payload.customer_id payload.description
      payload.metadata payload.idempotency_key

-- A creation: one call of Stripe, one new row that repeats no unique column, two entries that
-- accrue the amount, and a commit.
pub record CreatesRow (env : Env) (payload : PaymentIntentCreate) (merchant_id : Option String)
    (s : Session) (p : PaymentIntent) (t : Session) : Type 0 where
  pub absent : rows_of payload.idempotency_key s ≡ []
  pub calls : t.calls ≡ call_of payload ∷ s.calls
  pub answer : StripeIntent
  pub answered : reply_result (env.intents s.calls (call_of payload)) ≡ ok answer
  pub status : PaymentIntentStatus
  pub parsed : parse_status answer.status ≡ some status
  pub row : p ≡ new_intent env payload merchant_id answer status (env.uuid_hex s.uuids) s.now
  pub fresh : any (conflicts p) s.db.payment_intents ≡ false
  pub table : t.db.payment_intents ≡ s.db.payment_intents ++ p ∷ []
  pub positive : pos 0 <ℤ payload.amount
  pub booked :
      t.db.ledger_entries
      ≡ s.db.ledger_entries
        ++ pair_entries env
            (customer_pending payload.customer_id)
            payments_authorised
            payload.amount
            payload.currency
            (some p.id)
            (some "payment_intent.created")
            []
            (record s { uuids = s.uuids + 1 })
  pub committed : t.committed ≡ t.db

abbrev pub CreateOutcomes :
    Env → PaymentIntentCreate → Option String → Session → Result PaymentIntent × Session → Type 0
CreateOutcomes env payload merchant_id s (raised e, t) = t.committed ≡ s.committed
CreateOutcomes env payload merchant_id s (ok p, t) =
    ((rows_of payload.idempotency_key s ≡ p ∷ []) × (differs p payload ≡ false) × (t ≡ s))
    ⊎ CreatesRow env payload merchant_id s p t

module _ (env : Env) (payload : PaymentIntentCreate) (merchant_id : Option String)
    (s : Session) where
  create_new-CreateOutcomes :
      rows_of payload.idempotency_key s ≡ []
      → CreateOutcomes env payload merchant_id s (create_new env payload merchant_id s)
  unfolding create_new create_payment_intent uuid4_hex add_intent
  create_new-CreateOutcomes absent =
      let Post = CreateOutcomes env payload merchant_id s in
      let u = sent (call_of payload) s in
      continue_cases Post (reply_result (env.intents s.calls (call_of payload))) _ u (λ e. refl)
        λ answer answered.
          or_raise_cases Post (parse_status answer.status) _ _ u refl λ status parsed.
            let p = new_intent env payload merchant_id answer status (env.uuid_hex s.uuids) s.now in
            let t = record u {
              db = record s.db { payment_intents = s.db.payment_intents ++ p ∷ [] };
              uuids = s.uuids + 1;
            } in
            elim (Bool-cases (any (conflicts p) s.db.payment_intents)) [
              | inl taken ↦ rw taken refl
              | inr fresh ↦ rw fresh (elim (Bool-cases (leb_ℤ payload.amount (pos 0))) [
                | inl low ↦
                    rw
                      (record_transaction-pair_raised env (customer_pending payload.customer_id)
                        payments_authorised payload.amount payload.currency (some p.id)
                        (some "payment_intent.created") [] t low)
                      refl
                | inr high ↦
                    rw
                      (record_transaction-pair_ok env (customer_pending payload.customer_id)
                        payments_authorised payload.amount payload.currency (some p.id)
                        (some "payment_intent.created") [] t high)
                      (inr (record {
                        absent = absent;
                        calls = refl;
                        answer = answer;
                        answered = answered;
                        status = status;
                        parsed = parsed;
                        row = refl;
                        fresh = fresh;
                        table = refl;
                        positive = above_zero payload.amount high;
                        booked = refl;
                        committed = refl;
                      }))
              ])
            ]

  -- `create_intent` either raises, and then has committed nothing, or it returns the one row that the
  -- key has, which agrees with the order, and has done nothing else; or the key had no row, and then
  -- Stripe has had one call with the key, a new row that repeats no unique column is at the end of
  -- the table, with Stripe's id and status, two new entries accrue the amount, which is positive, and
  -- all of it is committed.
  pub create_intent-CreateOutcomes :
      CreateOutcomes env payload merchant_id s (create_intent env payload merchant_id s)
  unfolding create_intent create_or_replay find_by_idempotency_key
  create_intent-CreateOutcomes =
      let Post = CreateOutcomes env payload merchant_id s in
      scalar_cases Post (rows_of payload.idempotency_key s) _ s refl create_new-CreateOutcomes
        λ p one. elim (Bool-cases (differs p payload)) [
          | inl conflict ↦ rw conflict refl
          | inr same ↦ rw same (inl (one, same, refl))
        ]
