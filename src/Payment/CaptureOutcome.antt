-- ===== src/Payment/CaptureOutcome.antt =====
-- What `apply_succeeded_event` does, by how it ends.
use ix_gateway.Prelude.{
  String, true, false, Option, none, some, [], ◌++◌, ◌≡◌, refl, inl, inr, ◌⊎◌, All, Row, Bool-cases,
}
use ix_gateway.Prelude.Int.{above_zero, ℤ, pos, ◌<ℤ◌, leb_ℤ}
use ix_gateway.Models.{PaymentIntent, is_succeeded, succeeded}
use ix_gateway.Env.{Env}
use ix_gateway.Db.{Session, Result, ok, raised}
use ix_gateway.Db.Query.{query_cases}
use ix_gateway.Ledger.{is_value}
use ix_gateway.Ledger.Record.{
  record_transaction-pair_ok, record_transaction-pair_raised, pair_entries,
}
use ix_gateway.Payment.{
  payments_authorised, payments_captured, save_intent, stamped, replace_intent, find_by_stripe_id,
  capture, apply_succeeded_event,
}
use ix_gateway.Payment.Safe.{saved}

-- A capture of a row: paid, with the amount that was received and its two entries, and left for the
-- caller to commit.
pub record CapturesRow (env : Env) (amount : ℤ) (s : Session) (before q : PaymentIntent)
    (t : Session) : Type 0 where
  pub unpaid : is_succeeded before.status ≡ false
  pub positive : pos 0 <ℤ amount
  pub row :
      q ≡ stamped s.now before (record before { status = succeeded; amount_received = amount })
  pub table : t.db.payment_intents ≡ replace_intent q s.db.payment_intents
  pub booked :
      t.db.ledger_entries
      ≡ s.db.ledger_entries
        ++ pair_entries env payments_authorised payments_captured amount before.currency
            (some before.id)
            (some "payment_intent.succeeded")
            []
            s
  pub pending : t.committed ≡ s.committed
  pub silent : t.calls ≡ s.calls

abbrev pub Captures :
    Env → (sid : String) (amount : ℤ) → Session → Result (Option PaymentIntent) × Session → Type 0
Captures env sid amount s (raised e, t) = (t.committed ≡ s.committed) × (t.calls ≡ s.calls)
Captures env sid amount s (ok none, t) =
    (t ≡ s) × All (λ p. is_value p.stripe_payment_intent_id sid ≡ false) s.db.payment_intents
Captures env sid amount s (ok (some q), t) =
    (before : PaymentIntent) × Row before s.db.payment_intents
    × (is_value before.stripe_payment_intent_id sid ≡ true)
    × (((is_succeeded before.status ≡ true) × (q ≡ before) × (t ≡ s))
        ⊎ CapturesRow env amount s before q t)

module _ (env : Env) where
  capture-Captures :
      (p : PaymentIntent) (sid : String) (amount : ℤ) (s : Session)
      → Row p s.db.payment_intents
      → is_value p.stripe_payment_intent_id sid ≡ true
      → is_succeeded p.status ≡ false
      → Captures env sid amount s (capture env p amount s)
  unfolding capture save_intent
  capture-Captures p sid amount s row named unpaid =
      let t = saved s p (record p { status = succeeded; amount_received = amount }) in
      elim (Bool-cases (leb_ℤ amount (pos 0))) [
        | inl low ↦
            rw
              (record_transaction-pair_raised env payments_authorised payments_captured amount
                p.currency (some p.id) (some "payment_intent.succeeded") [] t low)
              (refl, refl)
        | inr high ↦
            rw
              (record_transaction-pair_ok env payments_authorised payments_captured amount
                p.currency (some p.id) (some "payment_intent.succeeded") [] t high)
              (
                p,
                row,
                named,
                inr (record {
                  unpaid = unpaid;
                  positive = above_zero amount high;
                  row = refl;
                  table = refl;
                  booked = refl;
                  pending = refl;
                  silent = refl;
                }),
              )
      ]

  -- `apply_succeeded_event` commits nothing and never calls Stripe. It raises, or no
  -- row has the Stripe id of the event, it returns none and the session is as it was; or it returns
  -- the row of the event, which was paid already, and the session is as it was; or it captures the
  -- row of the event: the row is succeeded with the amount that was received, which is positive,
  -- and two new entries take that amount from the authorised payments to the captured ones.
  pub apply_succeeded_event-Captures :
      (sid : String) (amount : ℤ) (s : Session)
      → Captures env sid amount s (apply_succeeded_event env sid amount s)
  unfolding apply_succeeded_event find_by_stripe_id
  apply_succeeded_event-Captures sid amount s =
      query_cases (Captures env sid amount s) _ s.db.payment_intents _ s
        (λ unknown. (refl, unknown))
        (λ p row named. elim (Bool-cases (is_succeeded p.status)) [
          | inl paid ↦ rw paid (p, row, named, inl (paid, refl, refl))
          | inr unpaid ↦ rw unpaid (capture-Captures p sid amount s row named unpaid)
        ])
        (refl, refl)
