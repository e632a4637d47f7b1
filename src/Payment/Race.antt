-- ===== src/Payment/Race.antt =====
-- Two refunds of one intent that overlap: each has read the row before the other writes it.
use ix_gateway.Prelude.{
  inl, inr, ◌==◌, eq_refl, String, false, Option, some, List, [], ◌∷◌, ◌≡◌, refl, ◌∙◌, ◌+◌, Row, ap,
  true,
}
use ix_gateway.Prelude.Int.{ℤ, pos, ◌+ℤ◌, ◌-ℤ◌, leb_ℤ, int_laws}
use ix_gateway.Prelude.Text.{lower, truthy, concat}
use ix_gateway.Models.{PaymentIntent}
use ix_gateway.Env.{Env, create_refund_call}
use ix_gateway.Db.{Session, Result, Exec, ok, raised}
use ix_gateway.StripeClient.{create_refund, reply_result, sent}
use ix_gateway.Ledger.Record.{record_transaction-pair_ok, with_pair}
use ix_gateway.Payment.{
  payments_captured, customer_account, save_intent, stamped, replace_intent, refund_checked,
}
use ix_gateway.Payment.Books.{captured}
use ix_gateway.Payment.RefundConsistent.{captured_refund}
use ix_gateway.Payment.Safe.{saved}

-- A refund after its checks: what was answered, what the row becomes and what is booked.
module _ (env : Env) (p : PaymentIntent) (sid key : String) (n : ℤ) (reason : Option String)
    (refund : String) (s : Session) where
  abbrev call_session : Session
  call_session = sent (create_refund_call sid key (some n) (truthy reason)) s

  abbrev refunded_row : PaymentIntent
  refunded_row = record p { amount_refunded = p.amount_refunded +ℤ n }

  abbrev booked_session : Session
  booked_session =
      with_pair env payments_captured (customer_account p.customer_id) n p.currency (some p.id)
        (some (concat "refund:" refund))
        (("stripe_refund_id", some refund) ∷ ("reason", reason) ∷ [])
        (saved call_session p refunded_row)

  abbrev after_refund : Session
  after_refund = record booked_session { committed = booked_session.db }

  refund_checked_due :
      reply_result (env.refunds s.calls (create_refund_call sid key (some n) (truthy reason)))
        ≡ ok refund
      → leb_ℤ n (pos 0) ≡ false
      → refund_checked env p sid n key reason s ≡ (ok (stamped s.now p refunded_row), after_refund)
  unfolding refund_checked create_refund save_intent
  refund_checked_due answered positive =
      rw
        (
          answered,
          record_transaction-pair_ok env payments_captured (customer_account p.customer_id) n
              p.currency (some p.id) (some (concat "refund:" refund))
              (("stripe_refund_id", some refund) ∷ ("reason", reason) ∷ [])
              (saved call_session p refunded_row) positive,
        )
        refl

  captured-after_refund :
      captured p.id after_refund.committed.ledger_entries
      ≡ captured p.id s.db.ledger_entries +ℤ (pos 0 -ℤ n)
  captured-after_refund =
      captured_refund env (s.uuids + 1) s.now (concat "tx_" (env.uuid_hex s.uuids))
        (lower p.currency) p.id n (some (concat "refund:" refund))
        (("stripe_refund_id", some refund) ∷ ("reason", reason) ∷ []) p.customer_id
        s.db.ledger_entries

Row-replace_intent :
    (p q : PaymentIntent) (ps : List PaymentIntent)
    → q.id ≡ p.id
    → Row p ps
    → Row q (replace_intent q ps)
Row-replace_intent p q [] same row = elim row [ ]
Row-replace_intent p q (x ∷ xs) same (inl e) =
    let found : (x.id == q.id) ≡ true = rw (same, e) (eq_refl p.id) in inl (rw found refl)
Row-replace_intent p q (x ∷ xs) same (inr row) = inr (Row-replace_intent p q xs same row)

lost : (c r f n m : ℤ) → c ≡ r -ℤ f → (c +ℤ (pos 0 -ℤ n)) +ℤ (pos 0 -ℤ m) ≡ (r -ℤ (f +ℤ m)) -ℤ n
lost c r f n m h = grind int_laws

-- The second refund writes what it has read before the first was committed.
abbrev pub overlapping :
    Env
    → (p : PaymentIntent) (sid key other : String) (n m : ℤ) (reason : Option String)
    → Exec PaymentIntent
overlapping env p sid key other n m reason s =
    refund_checked env p sid m other reason (refund_checked env p sid n key reason s).1

-- Both refunds are booked, and the row counts the second alone.
abbrev pub Loses : PaymentIntent → (n m : ℤ) → Result PaymentIntent × Session → Type 0
Loses p n m (raised _, t) = ⊥
Loses p n m (ok q, t) =
    Row q t.committed.payment_intents
    × (q.amount_refunded ≡ p.amount_refunded +ℤ m)
    × (captured p.id t.committed.ledger_entries ≡ (q.amount_received -ℤ q.amount_refunded) -ℤ n)

-- If the ledger has captured of an intent what its row says, and two refunds of it that have both
-- read the row before either wrote it are accepted by Stripe, then both go through, the row that is
-- committed counts the second refund alone, and the ledger is off it by the amount of the first.
pub overlapping-Loses :
    (env : Env) (p : PaymentIntent) (sid key other refund again : String) (n m : ℤ)
    (reason : Option String) (s : Session)
    → Row p s.db.payment_intents
    → captured p.id s.db.ledger_entries ≡ p.amount_received -ℤ p.amount_refunded
    → leb_ℤ n (pos 0) ≡ false
    → leb_ℤ m (pos 0) ≡ false
    → reply_result (env.refunds s.calls (create_refund_call sid key (some n) (truthy reason)))
      ≡ ok refund
    → reply_result (
        env.refunds
          (create_refund_call sid key (some n) (truthy reason) ∷ s.calls)
          (create_refund_call sid other (some m) (truthy reason)))
      ≡ ok again
    → Loses p n m (overlapping env p sid key other n m reason s)
overlapping-Loses env p sid key other refund again n m reason s row books high more first second =
    let t = after_refund env p sid key n reason refund s in
    rw
      (
        refund_checked_due env p sid key n reason refund s first high,
        refund_checked_due env p sid other m reason again t second more,
      )
      (
        Row-replace_intent (stamped s.now p (refunded_row env p sid key n reason refund s)) _
            t.db.payment_intents refl (Row-replace_intent p _ s.db.payment_intents refl row),
        refl,
        captured-after_refund env p sid other m reason again t
            ∙ ap (λ c. c +ℤ (pos 0 -ℤ m)) (captured-after_refund env p sid key n reason refund s)
            ∙ lost _ p.amount_received p.amount_refunded n m books,
      )
