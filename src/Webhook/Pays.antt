-- ===== src/Webhook/Pays.antt =====
-- A delivery that reports a payment goes through.
pub mod Linked
use ix_gateway.Webhook.Pays.Linked.{linked, IsCompletedIn, Links, complete_linked-Links}
use mathlib.Core.Path.{subst}
use ix_gateway.Db.Query.{Row-select, Row-find}
use ix_gateway.Prelude.{
  ◌++◌, String, true, false, Option, none, some, List, [], ◌∷◌, ◌≡◌, refl, ◌∙◌, sym, find, select,
  All, Row, inl, inr, Bool-cases, Option-cases, ⊤, ◌==◌, eq_refl, leb, length, ap, ◌⊎◌, ◌≤◌, arith,
}
use ix_gateway.Prelude.Int.{ℤ, pos, leb_ℤ}
use ix_gateway.Prelude.Text.{truthy}
use ix_gateway.Models.{
  LedgerEntry, PaymentIntent, CheckoutSession, WebhookEvent, is_succeeded, succeeded,
}
use ix_gateway.Env.{Env, Event, event}
use ix_gateway.Db.{
  Session, Result, Exec, ok, raised, pure, scalar_one_or_none, ◌>>=◌, ◌>>◌, continue,
}
use ix_gateway.Ledger.{is_value}
use ix_gateway.Ledger.Record.{record_transaction-pair_ok, with_pair, pair_entries}
use ix_gateway.Checkout.{find_by_payment_intent, complete_session, is_completed}
use ix_gateway.Checkout.Outcome.{row_of, Completes, complete_session-Completes}
use ix_gateway.Payment.{
  payments_authorised, payments_captured, save_intent, find_by_stripe_id, stamped, replace_intent,
  capture, apply_succeeded_event,
}
use ix_gateway.Payment.Safe.{saved}
use ix_gateway.Webhook.Once.{IsHandled, find-append, find-replace_event}
use ix_gateway.Webhook.{
  Received, received, duplicate, find_event, is_processed, amount_of, new_event, store_event,
  save_event, complete_linked, note_processed, note_success, dispatch, conclude, dispatched,
  handle_event, handle_construction, stripe_webhook, with_events,
}

-- The row `q` is written in the table `ps`, the ledger is `es`, the event is marked, the sessions `cs`
-- are completed, and all of it is committed.
pub record IsPaid (e : Event) (q : PaymentIntent) (ps : List PaymentIntent) (es : List LedgerEntry)
    (cs : List CheckoutSession) (t : Session) : Type 0 where
  pub rests : t.committed ≡ t.db
  pub table : t.db.payment_intents ≡ replace_intent q ps
  pub booked : t.db.ledger_entries ≡ es
  pub handled : IsHandled e.id t
  pub completed : All (IsCompletedIn t) cs

abbrev pub Pays :
    Event
    → PaymentIntent
    → List PaymentIntent
    → List LedgerEntry
    → List CheckoutSession
    → Result Received × Session
    → Type 0
Pays e q ps es cs (raised _, t) = ⊥
Pays e q ps es cs (ok duplicate, t) = ⊥
Pays e q ps es cs (ok received, t) = IsPaid e q ps es cs t

note_success-Pays :
    (e : Event) (w : WebhookEvent) (q : PaymentIntent) (ps : List PaymentIntent)
    (es : List LedgerEntry) (cs : List CheckoutSession) (t : Session)
    → find_event e.id t ≡ some w
    → t.db.payment_intents ≡ replace_intent q ps
    → t.db.ledger_entries ≡ es
    → All (IsCompletedIn t) cs
    → Pays e q ps es cs (note_success e t)
unfolding note_success note_processed save_event
note_success-Pays e w q ps es cs t found table booked completed = rw found (record {
  rests = refl;
  table = table;
  booked = booked;
  handled =
      rw
        (find-replace_event e.id t.db.webhook_events w (record w { processed_at = some t.now })
          found (Row-find (λ x. x.id == e.id) t.db.webhook_events w found).1)
        refl;
  completed = completed;
})

module _ (env : Env) where
  conclude-Pays :
      (e : Event) (w : WebhookEvent) (q : PaymentIntent) (ps : List PaymentIntent) (u : Session)
      (o : Result ⊤ × Session)
      → find_event e.id u ≡ some w
      → u.db.payment_intents ≡ replace_intent q ps
      → Links q.id u o
      → Pays e q ps u.db.ledger_entries (linked q.id u) (conclude env e o.0 o.1)
  unfolding conclude
  conclude-Pays e w q ps u (raised x, t) found table links = elim links [ ]
  conclude-Pays e w q ps u (ok _, t) found table (intents, entries, events, completed) =
      note_success-Pays e w q ps u.db.ledger_entries (linked q.id u) t
        (ap (find (λ x. x.id == e.id)) events ∙ found) (intents ∙ table) entries completed

  -- A capture that is due is made.
  apply_succeeded_event_due :
      (p : PaymentIntent) (sid : String) (amount : ℤ) (s : Session)
      → select (λ r. is_value r.stripe_payment_intent_id sid) s.db.payment_intents ≡ p ∷ []
      → is_succeeded p.status ≡ false
      → leb_ℤ amount (pos 0) ≡ false
      → let q = record p { status = succeeded; amount_received = amount } in
        apply_succeeded_event env sid amount s ≡ (
          ok (some (stamped s.now p q)),
          with_pair env payments_authorised payments_captured amount p.currency
              (some p.id)
              (some "payment_intent.succeeded")
              []
              (saved s p q),
        )
  unfolding apply_succeeded_event find_by_stripe_id capture save_intent
  apply_succeeded_event_due p sid amount s one unpaid high =
      rw
        (
          one,
          unpaid,
          record_transaction-pair_ok env payments_authorised payments_captured amount p.currency
              (some p.id) (some "payment_intent.succeeded") []
              (saved s p (record p { status = succeeded; amount_received = amount })) high,
        )
        refl

  module _ (e : Event) (p : PaymentIntent) (s : Session) where
    abbrev pub paid_row : PaymentIntent
    paid_row = stamped s.now p (record p { status = succeeded; amount_received = amount_of e })

    -- The ledger with the transfer of the amount.
    abbrev pub paid_entries : List LedgerEntry
    paid_entries =
        s.db.ledger_entries
        ++ pair_entries env payments_authorised payments_captured (amount_of e) p.currency
            (some p.id) (some "payment_intent.succeeded") [] s

    dispatched-Pays :
        (w : WebhookEvent)
        → find_event e.id s ≡ some w
        → (e.type == "payment_intent.succeeded") ≡ true
        → select (λ r. is_value r.stripe_payment_intent_id e.object_id) s.db.payment_intents
          ≡ p ∷ []
        → is_succeeded p.status ≡ false
        → leb_ℤ (amount_of e) (pos 0) ≡ false
        → length (linked p.id s) ≤ 1
        → Pays e paid_row s.db.payment_intents paid_entries (linked p.id s) (dispatched env e s)
    unfolding dispatched dispatch
    dispatched-Pays w found kind one unpaid high few =
        let t =
          with_pair env payments_authorised payments_captured (amount_of e) p.currency (some p.id)
            (some "payment_intent.succeeded") []
            (saved s p (record p { status = succeeded; amount_received = amount_of e })) in
        rw (kind, apply_succeeded_event_due p e.object_id (amount_of e) s one unpaid high)
          (conclude-Pays e w paid_row s.db.payment_intents t (complete_linked (some paid_row) t)
            found refl (complete_linked-Links paid_row t few))

  stored-Pays :
      (e : Event) (p : PaymentIntent) (s : Session) (body : String) (row : Option WebhookEvent)
      → find_event e.id s ≡ row
      → (e.type == "payment_intent.succeeded") ≡ true
      → select (λ r. is_value r.stripe_payment_intent_id e.object_id) s.db.payment_intents ≡ p ∷ []
      → is_succeeded p.status ≡ false
      → leb_ℤ (amount_of e) (pos 0) ≡ false
      → length (linked p.id s) ≤ 1
      → Pays e
          (paid_row e p s)
          s.db.payment_intents
          (paid_entries e p s)
          (linked p.id s)
          ((store_event e body row >>= λ _. dispatched env e) s)
  unfolding store_event
  stored-Pays e p s body (some w) found kind one unpaid high few =
      dispatched-Pays e p s w found kind one unpaid high few
  stored-Pays e p s body none absent kind one unpaid high few =
      let w = new_event e body s.now in
      dispatched-Pays e p (with_events (s.db.webhook_events ++ w ∷ []) s) w
        (find-append e.id s.db.webhook_events w absent (eq_refl e.id)) kind one unpaid high few

  -- A delivery whose signature holds, of an event `payment_intent.succeeded` that is not processed
  -- yet, whose intent has one row that is not paid, with a positive amount and at most one checkout
  -- session of the intent, always goes through: the answer is that it was received, and then it is
  -- committed that the row is succeeded with that amount received, that the ledger has two new
  -- entries that take the amount from the authorised payments to the captured ones, that the event
  -- is processed and that the checkout session is completed.
  pub stripe_webhook-Pays :
      (header : Option String) (body signature : String) (e : Event) (p : PaymentIntent)
      (s : Session)
      → truthy header ≡ some signature
      → env.construct_event body signature ≡ event e
      → (e.type == "payment_intent.succeeded") ≡ true
      → is_processed (find_event e.id s) ≡ false
      → select (λ r. is_value r.stripe_payment_intent_id e.object_id) s.db.payment_intents ≡ p ∷ []
      → is_succeeded p.status ≡ false
      → leb_ℤ (amount_of e) (pos 0) ≡ false
      → length (linked p.id s) ≤ 1
      → Pays e
          (paid_row e p s)
          s.db.payment_intents
          (paid_entries e p s)
          (linked p.id s)
          (stripe_webhook env header body s)
  unfolding stripe_webhook handle_construction handle_event
  stripe_webhook-Pays header body signature e p s signed built kind first one unpaid high few =
      rw (signed, built, first)
        (stored-Pays e p s body (find_event e.id s) refl kind one unpaid high few)
