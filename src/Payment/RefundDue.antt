-- ===== src/Payment/RefundDue.antt =====
-- A refund that is due goes through.
use ix_gateway.Prelude.{String, true, false, Option, some, [], ◌∷◌, ◌≡◌, select, ◌==◌, ⊤}
use ix_gateway.Prelude.Int.{ℤ, pos, ◌-ℤ◌, ◌+ℤ◌, leb_ℤ, ltb_ℤ, int_laws}
use ix_gateway.Prelude.Text.{truthy, concat}
use ix_gateway.Models.{PaymentIntent, is_succeeded}
use ix_gateway.Env.{Env, create_refund_call}
use ix_gateway.Db.{Session, Result, ok, raised}
use ix_gateway.StripeClient.{create_refund, reply_result, sent}
use ix_gateway.Ledger.Record.{record_transaction-pair_ok}
use ix_gateway.Payment.{
  get_by_id, save_intent, payments_captured, customer_account, refund_checked, or_full,
  refund_intent,
}
use ix_gateway.Payment.RefundOutcome.{Refunds, Outcome, refund_intent-Outcome}
use ix_gateway.Payment.Safe.{saved}

-- The call has refunded.
abbrev pub HasRefunded :
    Env
    → (pid key : String) (amount : Option ℤ) (reason : Option String) → Session
    → Result PaymentIntent × Session
    → Type 0
HasRefunded env pid key amount reason s (raised _, t) = ⊥
HasRefunded env pid key amount reason s (ok q, t) = Refunds env pid key amount reason s q t

abbrev Returns : Result PaymentIntent × Session → Type 0
Returns (raised _, t) = ⊥
Returns (ok _, t) = ⊤

rest_is_left : (r n : ℤ) → leb_ℤ n (pos 0) ≡ false → ltb_ℤ r n ≡ false → leb_ℤ r (pos 0) ≡ false
rest_is_left r n positive covered = grind int_laws

module _ (env : Env) (pid key : String) (amount : Option ℤ) (reason : Option String)
    (s : Session) where
  returned :
      (o : Result PaymentIntent × Session)
      → Returns o
      → Outcome env pid key amount reason s o
      → HasRefunded env pid key amount reason s o
  returned (raised e, t) r o = r
  returned (ok q, t) r o = o

  module _ (p : PaymentIntent) (sid refund : String) (n : ℤ)
      (one : select (λ r. r.id == pid) s.db.payment_intents ≡ p ∷ [])
      (paid : is_succeeded p.status ≡ true) (backed : truthy p.stripe_payment_intent_id ≡ some sid)
      (asked : or_full amount (p.amount_received -ℤ p.amount_refunded) ≡ n)
      (positive : leb_ℤ n (pos 0) ≡ false)
      (covered : ltb_ℤ (p.amount_received -ℤ p.amount_refunded) n ≡ false)
      (answered : reply_result
          (env.refunds s.calls (create_refund_call sid key (some n) (truthy reason)))
        ≡ ok refund) where
    refund_checked-Returns : Returns (refund_checked env p sid n key reason s)
    unfolding refund_checked create_refund save_intent
    refund_checked-Returns =
        rw
          (
            answered,
            record_transaction-pair_ok env payments_captured (customer_account p.customer_id) n
                p.currency (some p.id) (some (concat "refund:" refund))
                (("stripe_refund_id", some refund) ∷ ("reason", reason) ∷ [])
                (saved (sent (create_refund_call sid key (some n) (truthy reason)) s) p
                  (record p { amount_refunded = p.amount_refunded +ℤ n }))
                positive,
          )
          tt

    some_left : leb_ℤ (p.amount_received -ℤ p.amount_refunded) (pos 0) ≡ false
    some_left = rest_is_left (p.amount_received -ℤ p.amount_refunded) n positive covered

    -- If one row has the id, and it is paid and has a Stripe id, then a refund of a positive amount,
    -- or of all that is left, that what was received and not refunded covers always goes through if
    -- Stripe accepts it: the call returns, with Stripe called once and the row and the ledger
    -- committed as for every refund.
    pub refund_intent-HasRefunded :
        HasRefunded env pid key amount reason s (refund_intent env pid key amount reason s)
    unfolding refund_intent get_by_id
    refund_intent-HasRefunded =
        returned (refund_intent env pid key amount reason s)
          (rw (one, paid, backed, some_left, asked, positive, covered) refund_checked-Returns)
          (refund_intent-Outcome env pid key amount reason s)
