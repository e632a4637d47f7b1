-- ===== src/Webhook/Upholds.antt =====
-- An invariant of the payment service under the webhook handler.
use ix_gateway.Prelude.{String, Option, none, some, inl, inr, ◌==◌, Bool-cases, ⊤}
use ix_gateway.Prelude.Text.{truthy}
use ix_gateway.Errors.{Exn, app, webhook_handler_failed_error}
use ix_gateway.Models.{PaymentIntent, WebhookEvent}
use ix_gateway.Env.{Env, Event, Construction, event, bad_signature, bad_payload}
use ix_gateway.Db.{Session, Result, ok, raised, pure, raise, commit, ◌>>=◌, ◌>>◌}
use ix_gateway.Db.Query.{query_rule}
use ix_gateway.Checkout.{find_by_payment_intent, complete_session}
use ix_gateway.Checkout.Upholds.{complete_session-Upholds}
use ix_gateway.Payment.{apply_succeeded_event}
use ix_gateway.Payment.Upholds.{
  Invariant, Meets, Upholds, UpheldByPayments, Upholds-ok, Upholds-raised, bind_rule, or_raise_rule,
}
use ix_gateway.Webhook.{
  Received, received, note_error, note_processed, conclude, find_event, amount_of, is_processed,
  store_event, complete_linked, save_event, note_failure, note_success, dispatch, dispatched,
  handle_event, handle_construction, stripe_webhook,
}

module _ {I : Invariant} where
  complete_linked-Upholds :
      (intent : Option PaymentIntent) (s : Session)
      → Meets I s.db
      → Meets I s.committed
      → Upholds I (complete_linked intent s)
  unfolding complete_linked find_by_payment_intent
  complete_linked-Upholds none s h k = Upholds-ok _ _ h k
  complete_linked-Upholds (some p) s h k =
      query_rule (Upholds I) _ s.db.checkout_sessions _ s (Upholds-ok _ _ h k)
        (λ c _ _.
          let (r, t) = complete_session c.id s in
          bind_rule r _ t (complete_session-Upholds c.id s h k) (λ c' x y. Upholds-ok _ _ x y))
        (Upholds-raised _ _ k)

  note_failure-Upholds :
      (e : Event) (failure : Exn) (s : Session)
      → Meets I s.committed
      → Upholds I (note_failure e failure s)
  unfolding note_failure note_error save_event
  note_failure-Upholds e failure s k = go (find_event e.id (record s { db = s.committed }))
    where
      go :
          (row : Option WebhookEvent)
          → Upholds I (
              (note_error failure row >> raise {A = Received} (app webhook_handler_failed_error))
                (record s { db = s.committed }))
      go none = Upholds-raised _ _ k
      go (some w) = Upholds-raised _ _ k

  note_success-Upholds : (e : Event) (s : Session) → Meets I s.db → Upholds I (note_success e s)
  unfolding note_success note_processed save_event
  note_success-Upholds e s h = go (find_event e.id s)
    where
      go :
          (row : Option WebhookEvent)
          → Upholds I ((note_processed row >> (commit >> pure received)) s)
      go none = record { books = (h, h) }
      go (some w) = record { books = (h, h) }

  module _ (env : Env) (laws : UpheldByPayments I env) where
    dispatch-Upholds :
        (e : Event) (s : Session)
        → Meets I s.db
        → Meets I s.committed
        → Upholds I (dispatch env e s)
    unfolding dispatch
    dispatch-Upholds e s h k = elim (Bool-cases (e.type == "payment_intent.succeeded")) [
      | inr other ↦ rw other (Upholds-ok _ _ h k)
      | inl paid ↦ rw paid (
          let (r, t) = apply_succeeded_event env e.object_id (amount_of e) s in
          bind_rule r _ t (laws.captures e.object_id (amount_of e) s h k)
            (λ intent x y. complete_linked-Upholds intent t x y))
    ]

    conclude-Upholds :
        (e : Event) (r : Result ⊤) (t : Session)
        → Upholds I {A = ⊤} (r, t)
        → Upholds I (conclude env e r t)
    unfolding conclude
    conclude-Upholds e (ok _) t safe = note_success-Upholds e t safe.books.0
    conclude-Upholds e (raised failure) t safe = note_failure-Upholds e failure t safe.books

    dispatched-Upholds :
        (e : Event) (s : Session)
        → Meets I s.db
        → Meets I s.committed
        → Upholds I (dispatched env e s)
    unfolding dispatched
    dispatched-Upholds e s h k =
        let (r, t) = dispatch env e s in conclude-Upholds e r t (dispatch-Upholds e s h k)

    store_rule :
        (e : Event) (body : String) (row : Option WebhookEvent) (s : Session)
        → Meets I s.db
        → Meets I s.committed
        → Upholds I ((store_event e body row >>= λ _. dispatched env e) s)
    unfolding store_event
    store_rule e body none s h k = dispatched-Upholds e _ h k
    store_rule e body (some w) s h k = dispatched-Upholds e s h k

    handle_event-Upholds :
        (e : Event) (body : String) (s : Session)
        → Meets I s.db
        → Meets I s.committed
        → Upholds I (handle_event env e body s)
    unfolding handle_event
    handle_event-Upholds e body s h k = elim (Bool-cases (is_processed (find_event e.id s))) [
      | inl again ↦ rw again (Upholds-ok _ _ h k)
      | inr first ↦ rw first (store_rule e body (find_event e.id s) s h k)
    ]

    handle_construction-Upholds :
        (c : Construction) (body : String) (s : Session)
        → Meets I s.db
        → Meets I s.committed
        → Upholds I (handle_construction env c body s)
    unfolding handle_construction
    handle_construction-Upholds (event e) body s h k = handle_event-Upholds e body s h k
    handle_construction-Upholds bad_signature body s h k = Upholds-raised _ _ k
    handle_construction-Upholds bad_payload body s h k = Upholds-raised _ _ k

    pub stripe_webhook-Upholds :
        (header : Option String) (body : String) (s : Session)
        → Meets I s.db
        → Meets I s.committed
        → Upholds I (stripe_webhook env header body s)
    unfolding stripe_webhook
    stripe_webhook-Upholds header body s h k =
        or_raise_rule (truthy header) _ _ s k
          λ signature _. handle_construction-Upholds (env.construct_event body signature) body s h k
