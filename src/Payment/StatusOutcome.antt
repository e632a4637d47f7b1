-- ===== src/Payment/StatusOutcome.antt =====
-- What `confirm_intent` and `cancel_intent` do, by how they end.
use ix_gateway.Prelude.{
  String, true, false, some, [], ◌∷◌, ◌++◌, ◌≡◌, refl, inl, inr, ◌⊎◌, Row, Bool-cases, ◌==◌,
}
use ix_gateway.Prelude.Int.{pos, leb_ℤ}
use ix_gateway.Prelude.Text.{truthy}
use ix_gateway.Models.{
  PaymentIntent, PaymentIntentStatus, parse_status, is_succeeded, is_canceled, is_terminal,
}
use ix_gateway.Env.{Env, StripeCall, StripeIntent, confirm_intent_call, cancel_intent_call}
use ix_gateway.Db.{Session, Result, ok, raised}
use ix_gateway.Db.Query.{query_rule, or_raise_cases, raise_if_cases, continue_cases}
use ix_gateway.StripeClient.{confirm_payment_intent, cancel_payment_intent, reply_result, sent}
use ix_gateway.Ledger.Record.{
  record_transaction-pair_ok, record_transaction-pair_raised, pair_entries,
}
use ix_gateway.Payment.{
  PaymentIntentConfirm, PaymentIntentCancel, get_by_id, save_intent, stamped, replace_intent,
  payments_authorised, customer_pending, confirm_open, confirm_intent, cancel_open, cancel_intent,
}
use ix_gateway.Payment.Safe.{saved}

-- A row whose status follows an answer of Stripe's: nothing else changes but the time stamp, and the
-- write is committed, after one call.
pub record Follows (env : Env) (call : String → StripeCall) (s : Session) (before q : PaymentIntent)
    (t : Session) : Type 0 where
  pub stripe_id : String
  pub backed : truthy before.stripe_payment_intent_id ≡ some stripe_id
  pub calls : t.calls ≡ call stripe_id ∷ s.calls
  pub status : PaymentIntentStatus
  pub answer : StripeIntent
  pub answered : reply_result (env.intents s.calls (call stripe_id)) ≡ ok answer
  pub parsed : parse_status answer.status ≡ some status
  pub row : q ≡ stamped s.now before (record before { status = status })
  pub table : t.db.payment_intents ≡ replace_intent q s.db.payment_intents
  pub committed : t.committed ≡ t.db

-- A confirmation: of a row that was open, or nothing at all happens to a row that is not.
abbrev pub Confirms :
    Env → (pid : String) → PaymentIntentConfirm → Session → Result PaymentIntent × Session → Type 0
Confirms env pid payload s (raised e, t) = (t.db ≡ s.db) × (t.committed ≡ s.committed)
Confirms env pid payload s (ok q, t) =
    (before : PaymentIntent) × Row before s.db.payment_intents
    × ((before.id == pid) ≡ true)
    × (((is_terminal before.status ≡ true) × (q ≡ before) × (t ≡ s))
        ⊎ ((is_terminal before.status ≡ false)
            × Follows env
                (λ sid. confirm_intent_call sid payload.payment_method_id payload.idempotency_key) s
                before q t
            × (t.db.ledger_entries ≡ s.db.ledger_entries)))

-- A cancellation: of a row that was neither canceled nor paid, with its reversal in the ledger.
abbrev pub Cancels :
    Env → (pid : String) → PaymentIntentCancel → Session → Result PaymentIntent × Session → Type 0
Cancels env pid payload s (raised e, t) = t.committed ≡ s.committed
Cancels env pid payload s (ok q, t) =
    (before : PaymentIntent) × Row before s.db.payment_intents
    × ((before.id == pid) ≡ true)
    × (((is_canceled before.status ≡ true) × (q ≡ before) × (t ≡ s))
        ⊎ ((is_canceled before.status ≡ false)
            × (is_succeeded before.status ≡ false)
            × Follows env
                (λ sid. cancel_intent_call sid payload.idempotency_key (truthy payload.reason)) s
                before q t
            × (t.db.ledger_entries
                ≡ s.db.ledger_entries
                  ++ pair_entries env payments_authorised (customer_pending before.customer_id)
                      before.amount before.currency (some before.id)
                      (some "payment_intent.canceled") [] s)))

module _ (env : Env) where
  confirm_open-Confirms :
      (p : PaymentIntent) (pid : String) (payload : PaymentIntentConfirm) (s : Session)
      → Row p s.db.payment_intents
      → (p.id == pid) ≡ true
      → is_terminal p.status ≡ false
      → Confirms env pid payload s (confirm_open env p payload s)
  unfolding confirm_open confirm_payment_intent save_intent
  confirm_open-Confirms p pid payload s row named opened =
      let Post = Confirms env pid payload s in
      or_raise_cases Post (truthy p.stripe_payment_intent_id) _ _ s (refl, refl)
        λ sid backed.
          let call = confirm_intent_call sid payload.payment_method_id payload.idempotency_key in
          continue_cases Post (reply_result (env.intents s.calls call)) _ (sent call s)
            (λ e. (refl, refl))
            λ answer replied.
              or_raise_cases Post (parse_status answer.status) _ _ (sent call s) (refl, refl)
                λ status given. (
                  p,
                  row,
                  named,
                  inr (
                    opened,
                    record {
                      stripe_id = sid;
                      backed = backed;
                      calls = refl;
                      status = status;
                      answer = answer;
                      answered = replied;
                      parsed = given;
                      row = refl;
                      table = refl;
                      committed = refl;
                    },
                    refl,
                  ),
                )

  -- `confirm_intent` either raises, and then has written nothing, or it finds a row with the id: a
  -- row that is succeeded, canceled or failed it returns as it is, without a call of Stripe, and any
  -- other row gets the status that Stripe answers to one call, which is committed; no other field
  -- but the time stamp changes, and nothing is booked.
  pub confirm_intent-Confirms :
      (pid : String) (payload : PaymentIntentConfirm) (s : Session)
      → Confirms env pid payload s (confirm_intent env pid payload s)
  unfolding confirm_intent get_by_id
  confirm_intent-Confirms pid payload s =
      query_rule (Confirms env pid payload s) _ s.db.payment_intents _ s (refl, refl)
        (λ p row named. elim (Bool-cases (is_terminal p.status)) [
          | inl early ↦ rw early (p, row, named, inl (early, refl, refl))
          | inr opened ↦ rw opened (confirm_open-Confirms p pid payload s row named opened)
        ])
        (refl, refl)

  cancel_open-Cancels :
      (p : PaymentIntent) (pid : String) (payload : PaymentIntentCancel) (s : Session)
      → Row p s.db.payment_intents
      → (p.id == pid) ≡ true
      → is_canceled p.status ≡ false
      → Cancels env pid payload s (cancel_open env p payload s)
  unfolding cancel_open cancel_payment_intent save_intent
  cancel_open-Cancels p pid payload s row named opened =
      let Post = Cancels env pid payload s in
      raise_if_cases Post (is_succeeded p.status) _ _ s refl λ unpaid.
        or_raise_cases Post (truthy p.stripe_payment_intent_id) _ _ s refl λ sid backed.
          let call = cancel_intent_call sid payload.idempotency_key (truthy payload.reason) in
          continue_cases Post (reply_result (env.intents s.calls call)) _ (sent call s) (λ e. refl)
            λ answer replied.
              or_raise_cases Post (parse_status answer.status) _ _ (sent call s) refl
                λ status given.
                  let t = saved (sent call s) p (record p { status = status }) in
                  elim (Bool-cases (leb_ℤ p.amount (pos 0))) [
                    | inl low ↦
                        rw
                          (record_transaction-pair_raised env payments_authorised
                            (customer_pending p.customer_id) p.amount p.currency (some p.id)
                            (some "payment_intent.canceled") [] t low)
                          refl
                    | inr high ↦
                        rw
                          (record_transaction-pair_ok env payments_authorised
                            (customer_pending p.customer_id) p.amount p.currency (some p.id)
                            (some "payment_intent.canceled") [] t high)
                          (
                            p,
                            row,
                            named,
                            inr (
                              opened,
                              unpaid,
                              record {
                                stripe_id = sid;
                                backed = backed;
                                calls = refl;
                                status = status;
                                answer = answer;
                                answered = replied;
                                parsed = given;
                                row = refl;
                                table = refl;
                                committed = refl;
                              },
                              refl,
                            ),
                          )
                  ]

  -- `cancel_intent` either raises, and then has committed nothing, or it finds a row with the id: a
  -- canceled row it returns as it is, without a call of Stripe, and a row that is not succeeded gets
  -- the status that Stripe answers to one call, with two entries that reverse the authorisation, all
  -- of it committed. A succeeded row is never canceled.
  pub cancel_intent-Cancels :
      (pid : String) (payload : PaymentIntentCancel) (s : Session)
      → Cancels env pid payload s (cancel_intent env pid payload s)
  unfolding cancel_intent get_by_id
  cancel_intent-Cancels pid payload s =
      query_rule (Cancels env pid payload s) _ s.db.payment_intents _ s refl
        (λ p row named. elim (Bool-cases (is_canceled p.status)) [
          | inl early ↦ rw early (p, row, named, inl (early, refl, refl))
          | inr opened ↦ rw opened (cancel_open-Cancels p pid payload s row named opened)
        ])
        refl
