-- ===== src/Webhook.antt =====
-- app/api/webhooks.py: the handler of Stripe's events.
pub mod Upholds
pub mod Consistent
pub mod Pays
pub mod Outcome
pub mod Once
pub mod Failure
mod Tests
use ix_gateway.Prelude.{
  String, Bool, true, false, Option, none, some, List, [], ◌∷◌, ◌++◌, find, ⊤, ◌==◌, if◌then◌else◌,
  ℕ,
}
use ix_gateway.Prelude.Int.{ℤ}
use ix_gateway.Prelude.Text.{truthy}
use ix_gateway.Errors.{
  Exn, app, invalid_signature_error, invalid_payload_error, webhook_handler_failed_error,
}
use ix_gateway.Models.{WebhookEvent, PaymentIntent}
use ix_gateway.Env.{Env, Event, Construction, event, bad_signature, bad_payload}
use ix_gateway.Db.{
  Session, Exec, ok, raised, pure, raise, or_raise, commit, ◌>>=◌, ◌>>◌, rollback, Result, gets,
}
use ix_gateway.Payment.{apply_succeeded_event}
use ix_gateway.Checkout.{find_by_payment_intent, complete_session}

-- The response body: `{"received": True}`, with `"duplicate": True` on a replay.
pub data Received : Type 0 where
  received duplicate : Received

abbrev pub find_event : String → Session → Option WebhookEvent
find_event eid s = find (λ w. w.id == eid) s.db.webhook_events

abbrev pub replace_event : WebhookEvent → List WebhookEvent → List WebhookEvent
replace_event w [] = []
replace_event w (q ∷ rest) = (if q.id == w.id then w else q) ∷ replace_event w rest

abbrev pub with_events : List WebhookEvent → Session → Session
with_events ws s = record s { db = record s.db { webhook_events = ws } }

-- `int(obj.get("amount_received", obj["amount"]))`
abbrev pub amount_of : Event → ℤ
amount_of e = elim e.object_amount_received [ none ↦ e.object_amount | some n ↦ n ]

abbrev pub is_processed : Option WebhookEvent → Bool
is_processed none = false
is_processed (some w) = elim w.processed_at [ none ↦ false | some _ ↦ true ]

-- The row that `WebhookEvent(...)` builds.
abbrev pub new_event : Event → String → ℕ → WebhookEvent
new_event e body now = record {
  id = e.id;
  type = e.type;
  api_version = e.api_version;
  payload = body;
  processed_at = none;
  processing_error = none;
  received_at = now;
}

-- A row for an event that has none.
pub store_event : Event → String → Option WebhookEvent → Exec ⊤
store_event e body (some w) s = (ok tt, s)
store_event e body none s =
    (ok tt, with_events (s.db.webhook_events ++ new_event e body s.now ∷ []) s)

-- The session of a hosted checkout follows its intent.
pub complete_linked : Option PaymentIntent → Exec ⊤
complete_linked none = pure tt
complete_linked (some intent) = do
  linked ← find_by_payment_intent intent.id
  elim linked [ none ↦ pure tt | some c ↦ (complete_session c.id >> pure tt) ]

-- Writes the row of an event.
unfoldable pub save_event : WebhookEvent → Exec ⊤
save_event w s = (ok tt, with_events (replace_event w s.db.webhook_events) s)

pub note_error : Exn → Option WebhookEvent → Exec ⊤
note_error failure none = pure tt
note_error failure (some w) = save_event (record w { processing_error = some failure }) >> commit

pub note_processed : Option WebhookEvent → Exec ⊤
note_processed none s = (ok tt, s)
note_processed (some w) s = save_event (record w { processed_at = some s.now }) s

-- The `except` branch: the rollback, then the note on the event's row if there is one.
pub note_failure : Event → Exn → Exec Received
note_failure e failure = do
  rollback
  row ← gets (find_event e.id)
  note_error failure row
  raise (app webhook_handler_failed_error)

-- The end of the handler: the event is processed.
pub note_success : Event → Exec Received
note_success e = do row ← gets (find_event e.id); note_processed row; commit; pure received

module _ (env : Env) where
  -- `_dispatch`
  pub dispatch : Event → Exec ⊤
  dispatch e =
      if e.type == "payment_intent.succeeded"
      then (do intent ← apply_succeeded_event env e.object_id (amount_of e); complete_linked intent)
      else pure tt

  -- `try: await _dispatch(db, event) except Exception as exc: …`
  pub conclude : Event → Result ⊤ → Exec Received
  conclude e (ok _) = note_success e
  conclude e (raised failure) = note_failure e failure

  pub dispatched : Event → Exec Received
  dispatched e s = let (r, s') = dispatch e s in conclude e r s'

  pub handle_event : Event → String → Exec Received
  handle_event e body s =
      if is_processed (find_event e.id s)
      then (ok duplicate, s)
      else (store_event e body (find_event e.id s) >>= λ _. dispatched e) s

  pub handle_construction : Construction → String → Exec Received
  handle_construction (event e) body = handle_event e body
  handle_construction bad_signature body = raise (app invalid_signature_error)
  handle_construction bad_payload body = raise (app invalid_payload_error)

  pub stripe_webhook : Option String → String → Exec Received
  stripe_webhook header body = do
    signature ← or_raise (truthy header) (app invalid_signature_error)
    handle_construction (env.construct_event body signature) body
