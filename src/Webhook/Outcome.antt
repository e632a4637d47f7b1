-- ===== src/Webhook/Outcome.antt =====
-- What the dispatch of an event leaves alone: the table of events, and, when it fails, all that is
-- committed.
use ix_gateway.Prelude.{
  String, Option, none, some, ◌≡◌, refl, ◌∙◌, find, inl, inr, Bool-cases, Option-cases, [], ⊤, ◌==◌,
}
use ix_gateway.Prelude.Int.{ℤ, pos, leb_ℤ}
use ix_gateway.Models.{PaymentIntent, is_succeeded, succeeded}
use ix_gateway.Env.{Env, Event}
use ix_gateway.Db.{Session, Result, ok, raised, continue, pure}
use ix_gateway.Db.Query.{query_rule}
use ix_gateway.Db.Keeps.{Keeps}
use ix_gateway.Ledger.Record.{record_transaction-pair_ok, record_transaction-pair_raised}
use ix_gateway.Checkout.{
  get_by_id, find_by_payment_intent, set_status, complete_session, is_completed,
}
use ix_gateway.Payment.{
  payments_authorised, payments_captured, save_intent, find_by_stripe_id, capture,
  apply_succeeded_event,
}
use ix_gateway.Payment.Safe.{saved}
use ix_gateway.Webhook.{amount_of, complete_linked, dispatch}

-- Nothing is committed, and the events are as they were.
abbrev pub IsAside : Session → Session → Type 0
IsAside s t = (t.db.webhook_events ≡ s.db.webhook_events) × (t.committed ≡ s.committed)

abbrev pub Dispatches : {A : Type 0} → Session → Result A × Session → Type 0
Dispatches s (ok _, t) = t.db.webhook_events ≡ s.db.webhook_events
Dispatches s (raised _, t) = t.committed ≡ s.committed

-- The same as a record, which names the outcome.
pub record Dispatched {A : Type 0} (s : Session) (outcome : Result A × Session) : Type 0 where
  pub dispatches : Dispatches s outcome

module _ (env : Env) where
  capture-IsAside :
      (p : PaymentIntent) (amount : ℤ) (s : Session) → Keeps (IsAside s) (capture env p amount s)
  unfolding capture save_intent
  capture-IsAside p amount s =
      let t = saved s p (record p { status = succeeded; amount_received = amount }) in
      elim (Bool-cases (leb_ℤ amount (pos 0))) [
        | inl low ↦
            rw
              (record_transaction-pair_raised env payments_authorised payments_captured amount
                p.currency (some p.id) (some "payment_intent.succeeded") [] t low)
              (record { kept = (refl, refl) })
        | inr high ↦
            rw
              (record_transaction-pair_ok env payments_authorised payments_captured amount
                p.currency (some p.id) (some "payment_intent.succeeded") [] t high)
              (record { kept = (refl, refl) })
      ]

  apply_succeeded_event-IsAside :
      (sid : String) (amount : ℤ) (s : Session)
      → Keeps (IsAside s) (apply_succeeded_event env sid amount s)
  unfolding apply_succeeded_event find_by_stripe_id
  apply_succeeded_event-IsAside sid amount s =
      query_rule (Keeps (IsAside s)) _ s.db.payment_intents _ s (record { kept = (refl, refl) })
        (λ p _ _. elim (Bool-cases (is_succeeded p.status)) [
          | inl paid ↦ rw paid (record { kept = (refl, refl) })
          | inr unpaid ↦ rw unpaid (capture-IsAside p amount s)
        ])
        (record { kept = (refl, refl) })

complete_session-Dispatched : (sid : String) (s : Session) → Dispatched s (complete_session sid s)
unfolding complete_session get_by_id set_status
complete_session-Dispatched sid s =
    elim (Option-cases (find (λ c. c.id == sid) s.db.checkout_sessions)) [
      | inl absent ↦ rw absent (record { dispatches = refl })
      | inr (c, found) ↦ rw found (elim (Bool-cases (is_completed c.status)) [
        | inl done ↦ rw done (record { dispatches = refl })
        | inr open_one ↦ rw open_one (record { dispatches = refl })
      ])
    ]

ignored :
    {A : Type 0} (s : Session) (r : Result A) (t : Session)
    → Dispatched s (r, t)
    → Dispatched s (continue r (λ _. pure tt) t)
ignored s (ok a) t d = record { dispatches = d.dispatches }
ignored s (raised e) t d = record { dispatches = d.dispatches }

complete_linked-Dispatched :
    (intent : Option PaymentIntent) (s : Session) → Dispatched s (complete_linked intent s)
unfolding complete_linked find_by_payment_intent
complete_linked-Dispatched none s = record { dispatches = refl }
complete_linked-Dispatched (some p) s =
    query_rule (Dispatched s) _ s.db.checkout_sessions _ s (record { dispatches = refl })
      (λ c _ _.
        let (r, t) = complete_session c.id s in ignored s r t (complete_session-Dispatched c.id s))
      (record { dispatches = refl })

-- What comes after a stage that left everything aside.
then_linked :
    (s : Session) (r : Result (Option PaymentIntent)) (t : Session)
    → IsAside s t
    → Dispatched s (continue r complete_linked t)
then_linked s (ok intent) t (e, c) =
    go (complete_linked intent t) (complete_linked-Dispatched intent t)
  where
    go : (o : Result ⊤ × Session) → Dispatched t o → Dispatched s o
    go (ok _, u) d = record { dispatches = d.dispatches ∙ e }
    go (raised _, u) d = record { dispatches = d.dispatches ∙ c }
then_linked s (raised x) t (e, c) = record { dispatches = c }

pub dispatch-Dispatched : (env : Env) (e : Event) (s : Session) → Dispatched s (dispatch env e s)
unfolding dispatch
dispatch-Dispatched env e s = elim (Bool-cases (e.type == "payment_intent.succeeded")) [
  | inr other ↦ rw other (record { dispatches = refl })
  | inl paid ↦ rw paid (
      let (r, t) = apply_succeeded_event env e.object_id (amount_of e) s in
      then_linked s r t (apply_succeeded_event-IsAside env e.object_id (amount_of e) s).kept)
]
