-- ===== src/Payment/RefundOutcome.antt =====
-- What `refund_intent` does, by how it ends.
use ix_gateway.Prelude.{
  String, Bool, true, false, not, ◌||◌, Option, some, [], ◌∷◌, ◌++◌, ◌≡◌, refl, Row, ◌==◌, arith,
}
use ix_gateway.Prelude.Int.{above_zero, ℤ, pos, ◌+ℤ◌, ◌-ℤ◌, ◌≤ℤ◌, ◌<ℤ◌, leb_ℤ, ltb_ℤ, int_laws}
use ix_gateway.Prelude.Text.{truthy, concat}
use ix_gateway.Errors.{
  app, ledger, stripe_error, value_error, integrity_error, multiple_results, assertion_error,
  validation_error, index_error,
}
use ix_gateway.Models.{PaymentIntent, is_succeeded}
use ix_gateway.Env.{Env, create_refund_call}
use ix_gateway.Db.{Session, Result, ok, raised}
use ix_gateway.Db.Query.{query_rule, or_raise_cases, raise_if_cases, continue_cases}
use ix_gateway.StripeClient.{create_refund, reply_result, sent}
use ix_gateway.Ledger.Record.{record_transaction-pair_ok, pair_entries}
use ix_gateway.Payment.{
  stamped, replace_intent, get_by_id, save_intent, payments_captured, customer_account,
  refund_checked, as_refund_failed, or_full, refund_intent,
}
use ix_gateway.Payment.Safe.{saved}

-- A refund that went through: of a succeeded row with the id, of the asked amount or of all that is
-- left, positive and within what was received; Stripe had one call for it, and it is committed with
-- its two entries.
pub record Refunds (env : Env) (pid key : String) (amount : Option ℤ) (reason : Option String)
    (s : Session) (q : PaymentIntent) (t : Session) : Type 0 where
  pub before : PaymentIntent
  pub found : Row before s.db.payment_intents
  pub named : (before.id == pid) ≡ true
  pub paid : is_succeeded before.status ≡ true
  pub moved : ℤ
  pub asked : moved ≡ or_full amount (before.amount_received -ℤ before.amount_refunded)
  pub positive : pos 0 <ℤ moved
  pub covered : before.amount_refunded +ℤ moved ≤ℤ before.amount_received
  pub after :
      q ≡ stamped s.now before (record before { amount_refunded = before.amount_refunded +ℤ moved })
  pub table : t.db.payment_intents ≡ replace_intent q s.db.payment_intents
  pub stripe_id : String
  pub backed : truthy before.stripe_payment_intent_id ≡ some stripe_id
  pub calls : t.calls ≡ create_refund_call stripe_id key (some moved) (truthy reason) ∷ s.calls
  pub refund : String
  pub answered :
      reply_result
        (env.refunds s.calls (create_refund_call stripe_id key (some moved) (truthy reason)))
      ≡ ok refund
  pub booked :
      t.db.ledger_entries
      ≡ s.db.ledger_entries
        ++ pair_entries env payments_captured
            (customer_account before.customer_id)
            moved
            before.currency
            (some before.id)
            (some (concat "refund:" refund))
            (("stripe_refund_id", some refund) ∷ ("reason", reason) ∷ [])
            s
  pub committed : t.committed ≡ t.db

-- The outcome of a call: it has refunded, or nothing is written.
abbrev pub Outcome :
    Env
    → (pid key : String) (amount : Option ℤ) (reason : Option String) → Session
    → Result PaymentIntent × Session
    → Type 0
Outcome env pid key amount reason s (ok q, t) = Refunds env pid key amount reason s q t
Outcome env pid key amount reason s (raised e, t) = (t.db ≡ s.db) × (t.committed ≡ s.committed)

within : (r f n : ℤ) → ltb_ℤ (r -ℤ f) n ≡ false → f +ℤ n ≤ℤ r
within r f n h = grind int_laws

first_false : (a b : Bool) → (a || b) ≡ false → a ≡ false
first_false a b h = ground arith

second_false : (a b : Bool) → (a || b) ≡ false → b ≡ false
second_false a b h = ground arith

set_again : (b : Bool) → not b ≡ false → b ≡ true
set_again b h = ground arith

answered_of : (r : Result String) (refund : String) → as_refund_failed r ≡ ok refund → r ≡ ok refund
answered_of (ok a) refund h = h
answered_of (raised (app x)) refund h = cc
answered_of (raised (ledger x)) refund h = cc
answered_of (raised (stripe_error text)) refund h = cc
answered_of (raised value_error) refund h = cc
answered_of (raised integrity_error) refund h = cc
answered_of (raised multiple_results) refund h = cc
answered_of (raised assertion_error) refund h = cc
answered_of (raised validation_error) refund h = cc
answered_of (raised index_error) refund h = cc

module _ (env : Env) where
  refund_checked-Outcome :
      (p : PaymentIntent) (pid sid : String) (n : ℤ) (key : String) (amount : Option ℤ)
      (reason : Option String) (s : Session)
      → Row p s.db.payment_intents
      → (p.id == pid) ≡ true
      → is_succeeded p.status ≡ true
      → truthy p.stripe_payment_intent_id ≡ some sid
      → n ≡ or_full amount (p.amount_received -ℤ p.amount_refunded)
      → leb_ℤ n (pos 0) ≡ false
      → ltb_ℤ (p.amount_received -ℤ p.amount_refunded) n ≡ false
      → Outcome env pid key amount reason s (refund_checked env p sid n key reason s)
  unfolding refund_checked create_refund save_intent
  refund_checked-Outcome p pid sid n key amount reason s row named paid backed asked high fits =
      let call = create_refund_call sid key (some n) (truthy reason) in
      let q = record p { amount_refunded = p.amount_refunded +ℤ n } in
      continue_cases (Outcome env pid key amount reason s)
        (as_refund_failed (reply_result (env.refunds s.calls call))) _ (sent call s)
        (λ e. (refl, refl))
        λ refund given.
          rw
            (record_transaction-pair_ok env payments_captured (customer_account p.customer_id) n
              p.currency (some p.id) (some (concat "refund:" refund))
              (("stripe_refund_id", some refund) ∷ ("reason", reason) ∷ [])
              (saved (sent call s) p q) high)
            (record {
              before = p;
              found = row;
              named = named;
              paid = paid;
              moved = n;
              asked = asked;
              positive = above_zero n high;
              covered = within p.amount_received p.amount_refunded n fits;
              after = refl;
              table = refl;
              stripe_id = sid;
              backed = backed;
              calls = refl;
              refund = refund;
              answered = answered_of (reply_result (env.refunds s.calls call)) refund given;
              booked = refl;
              committed = refl;
            })

  -- `refund_intent` either raises, and then has written nothing, or it refunds a succeeded intent by
  -- the amount that was asked for, or by all that is left, which is positive and within what was
  -- received; then Stripe has had one call with the idempotency key, the row has the new total, the
  -- ledger two new entries that take the amount from the captured payments to the customer, and all
  -- of it is committed.
  pub refund_intent-Outcome :
      (pid key : String) (amount : Option ℤ) (reason : Option String) (s : Session)
      → Outcome env pid key amount reason s (refund_intent env pid key amount reason s)
  unfolding refund_intent get_by_id
  refund_intent-Outcome pid key amount reason s =
      let Post = Outcome env pid key amount reason s in
      query_rule Post _ s.db.payment_intents _ s (refl, refl)
        (λ p row named.
          let refundable = p.amount_received -ℤ p.amount_refunded in
          let n = or_full amount refundable in
          raise_if_cases Post (not (is_succeeded p.status)) _ _ s (refl, refl)
            λ paid.
              or_raise_cases Post (truthy p.stripe_payment_intent_id) _ _ s (refl, refl)
                λ sid backed.
                  raise_if_cases Post (leb_ℤ refundable (pos 0)) _ _ s (refl, refl)
                    λ _.
                      raise_if_cases Post (leb_ℤ n (pos 0) || ltb_ℤ refundable n) _ _ s (refl, refl)
                        λ fits.
                          refund_checked-Outcome p pid sid n key amount reason s row named
                            (set_again (is_succeeded p.status) paid) backed refl
                            (first_false (leb_ℤ n (pos 0)) (ltb_ℤ refundable n) fits)
                            (second_false (leb_ℤ n (pos 0)) (ltb_ℤ refundable n) fits))
        (refl, refl)
