-- ===== src/Payment/Replay.antt =====
-- The idempotency of `create_intent`.
use ix_gateway.Prelude.{
  String, Bool, true, false, ◌&&◌, Option, none, some, List, [], ◌∷◌, ◌++◌, ◌≡◌, refl, inl, inr,
  any, select, Bool-cases, ⊤, if◌then◌else◌, ◌==◌, eq_refl, eq_iff, arith, ◌+◌,
}
use ix_gateway.Prelude.Int.{pos, leb_ℤ, eqb_ℤ, eqb_ℤ→eq}
use ix_gateway.Prelude.Text.{lower}
use ix_gateway.Errors.{app, value_error, idempotency_conflict_error}
use ix_gateway.Models.{PaymentIntent, parse_status}
use ix_gateway.Env.{Env, create_intent_call}
use ix_gateway.Db.{Session, Result, ok, raised, pure, commit, uuid4_hex, ◌>>◌}
use ix_gateway.Db.Query.{scalar_cases, continue_cases, or_raise_cases}
use ix_gateway.StripeClient.{reply_result, sent, create_payment_intent}
use ix_gateway.Ledger.{pair, record_transaction}
use ix_gateway.Ledger.Record.{record_transaction-pair_ok, record_transaction-pair_raised}
use ix_gateway.Payment.CreateOutcome.{rows_of}
use ix_gateway.Payment.{
  PaymentIntentCreate, find_by_idempotency_key, conflicts, add_intent, payments_authorised,
  customer_pending, differs, new_intent, create_new, create_or_replay, create_intent,
}

-- A call that returned: the key has this one row, with what the request asked for.
abbrev Creates : PaymentIntentCreate → Result PaymentIntent × Session → Type 0
Creates payload (ok p, t) =
    (rows_of payload.idempotency_key t ≡ p ∷ [])
    × (p.amount ≡ payload.amount)
    × (p.currency ≡ lower payload.currency)
Creates payload (raised e, t) = ⊤

select-append :
    {A : Type 0} (test : A → Bool) (xs : List A) (x : A)
    → select test xs ≡ []
    → test x ≡ true
    → select test (xs ++ x ∷ []) ≡ x ∷ []
select-append test [] x none_before meets = rw meets refl
select-append test (y ∷ xs) x none_before meets = elim (Bool-cases (test y)) [
  | inl chosen ↦ let absurd = rw chosen at none_before in cc
  | inr left ↦ rw left (select-append test xs x (rw left at none_before) meets)
]

agrees :
    (p : PaymentIntent) (payload : PaymentIntentCreate)
    → differs p payload ≡ false
    → (p.amount ≡ payload.amount) × (p.currency ≡ lower payload.currency)
agrees p payload h = elim (Bool-cases (eqb_ℤ p.amount payload.amount)) [
  | inr other ↦ let absurd = rw other at h in cc
  | inl same ↦ elim (Bool-cases (p.currency == lower payload.currency)) [
    | inr other ↦ let absurd = rw (same, other) at h in cc
    | inl alike ↦ (
      eqb_ℤ→eq p.amount payload.amount same,
      ground (arith, eq_iff p.currency (lower payload.currency)),
    )
  ]
]

module _ (env : Env) where
  accrued :
      (payload : PaymentIntentCreate) (p : PaymentIntent) (s : Session)
      → (rows_of payload.idempotency_key
            (record s { db = record s.db { payment_intents = s.db.payment_intents ++ p ∷ [] } })
          ≡ p ∷ [])
      → p.amount ≡ payload.amount
      → p.currency ≡ lower payload.currency
      → Creates payload (
          (record_transaction env
                (pair (customer_pending payload.customer_id) payments_authorised payload.amount)
                payload.currency
                (some p.id)
                (some "payment_intent.created")
                []
                none
              >> (commit >> pure p))
            (record s { db = record s.db { payment_intents = s.db.payment_intents ++ p ∷ [] } }))
  accrued payload p s one amount currency =
      let t = record s { db = record s.db { payment_intents = s.db.payment_intents ++ p ∷ [] } } in
      elim (Bool-cases (leb_ℤ payload.amount (pos 0))) [
        | inl low ↦
            rw
              (record_transaction-pair_raised env (customer_pending payload.customer_id)
                payments_authorised payload.amount payload.currency (some p.id)
                (some "payment_intent.created") [] t low)
              tt
        | inr high ↦
            rw
              (record_transaction-pair_ok env (customer_pending payload.customer_id)
                payments_authorised payload.amount payload.currency (some p.id)
                (some "payment_intent.created") [] t high)
              (one, amount, currency)
      ]

  create_new-Creates :
      (payload : PaymentIntentCreate) (merchant_id : Option String) (s : Session)
      → rows_of payload.idempotency_key s ≡ []
      → Creates payload (create_new env payload merchant_id s)
  unfolding create_new create_payment_intent uuid4_hex add_intent
  create_new-Creates payload merchant_id s absent =
      let call =
        create_intent_call payload.amount payload.currency payload.customer_id payload.description
          payload.metadata payload.idempotency_key in
      continue_cases (Creates payload) (reply_result (env.intents s.calls call)) _ (sent call s)
        (λ e. tt)
        λ answer _.
          or_raise_cases (Creates payload) (parse_status answer.status) value_error _ (sent call s)
            tt
            λ status _.
              let p =
                new_intent env payload merchant_id answer status (env.uuid_hex s.uuids) s.now in
              elim (Bool-cases (any (conflicts p) s.db.payment_intents)) [
                | inl taken ↦ rw taken tt
                | inr fresh ↦ rw fresh (
                    accrued payload p (record (sent call s) { uuids = s.uuids + 1 })
                      (select-append (λ q. q.idempotency_key == payload.idempotency_key)
                        s.db.payment_intents p absent (eq_refl payload.idempotency_key))
                      refl refl)
              ]

  create_intent-Creates :
      (payload : PaymentIntentCreate) (merchant_id : Option String) (s : Session)
      → Creates payload (create_intent env payload merchant_id s)
  unfolding create_intent create_or_replay find_by_idempotency_key
  create_intent-Creates payload merchant_id s =
      scalar_cases (Creates payload) (rows_of payload.idempotency_key s) _ s tt
        (create_new-Creates payload merchant_id s)
        λ p one. elim (Bool-cases (differs p payload)) [
          | inl conflict ↦ rw conflict tt
          | inr same ↦
              let (amount, currency) = agrees p payload same in rw same (one, amount, currency)
        ]

  -- After a call of `create_intent` has returned a row, every later call with the same idempotency
  -- key, on a session whose table of intents is the same, changes nothing and calls Stripe not
  -- once: with the same amount and the same currency up to case it returns the same row, otherwise it
  -- raises the conflict. The merchant and the other fields of the later request do not matter.
  pub create_intent_again :
      (payload again : PaymentIntentCreate) (merchant_id merchant_id' : Option String)
      (s t u : Session) (p : PaymentIntent)
      → create_intent env payload merchant_id s ≡ (ok p, t)
      → again.idempotency_key ≡ payload.idempotency_key
      → u.db.payment_intents ≡ t.db.payment_intents
      → create_intent env again merchant_id' u ≡ (
        (if eqb_ℤ payload.amount again.amount && lower payload.currency == lower again.currency
            then ok p
            else raised (app idempotency_conflict_error)),
        u,
      )
  unfolding create_intent create_or_replay find_by_idempotency_key
  create_intent_again payload again merchant_id merchant_id' s t u p done key same =
      let creates : Creates payload (ok p, t) =
        rw done at (create_intent-Creates payload merchant_id s) in
      let (one, amount, currency) = creates in
      let a = eqb_ℤ payload.amount again.amount in
      let c = lower payload.currency == lower again.currency in
      rw (key, same, one, amount, currency)
        (elim (Bool-cases a) [
          | inr other ↦ rw other refl
          | inl paid ↦ elim (Bool-cases c) [
            | inl alike ↦ rw (paid, alike) refl
            | inr other ↦ rw (paid, other) refl
          ]
        ])
