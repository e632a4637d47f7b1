-- ===== src/Webhook/Failure.antt =====
-- A failed delivery leaves no trace but a note in the table of events.
use ix_gateway.Prelude.{String, Option, none, some, ◌≡◌, refl, inl, inr, Bool-cases, ⊤}
use ix_gateway.Prelude.Text.{truthy}
use ix_gateway.Errors.{Exn, app, webhook_handler_failed_error, invalid_signature_error}
use ix_gateway.Models.{WebhookEvent}
use ix_gateway.Env.{Env, Event, Construction, event, bad_signature, bad_payload}
use ix_gateway.Db.{Db, Session, Result, ok, raised, pure, raise, commit, or_raise, ◌>>=◌, ◌>>◌}
use ix_gateway.Webhook.Outcome.{Dispatched, dispatch-Dispatched}
use ix_gateway.Webhook.{
  Received, find_event, is_processed, store_event, save_event, note_error, note_failure,
  note_success, note_processed, received, dispatch, conclude, dispatched, handle_event,
  handle_construction, stripe_webhook,
}

-- Two states of the tables that differ in the events at most.
abbrev pub IsNoted : Db → Db → Type 0
IsNoted a b = b ≡ record a { webhook_events = b.webhook_events }

abbrev Undoes : Db → Result Received × Session → Type 0
Undoes c (ok _, t) = ⊤
Undoes c (raised _, t) = IsNoted c t.committed

pub record Undone (c : Db) (outcome : Result Received × Session) : Type 0 where
  pub undoes : Undoes c outcome

note_failure-Undone :
    (e : Event) (x : Exn) (s t : Session)
    → t.committed ≡ s.committed
    → Undone s.committed (note_failure e x t)
unfolding note_failure note_error save_event
note_failure-Undone e x s t same = go (find_event e.id (record t { db = t.committed }))
  where
    go :
        (row : Option WebhookEvent)
        → Undone s.committed (
            (note_error x row >> raise {A = Received} (app webhook_handler_failed_error))
              (record t { db = t.committed }))
    go none = record { undoes = rw same refl }
    go (some w) = record { undoes = rw same refl }

note_success-Undone : (e : Event) (c : Db) (s : Session) → Undone c (note_success e s)
unfolding note_success note_processed save_event
note_success-Undone e c s = go (find_event e.id s)
  where
    go :
        (row : Option WebhookEvent) → Undone c ((note_processed row >> (commit >> pure received)) s)
    go none = record { undoes = tt }
    go (some w) = record { undoes = tt }

module _ (env : Env) where
  conclude-Undone :
      (e : Event) (s : Session) (r : Result ⊤) (t : Session)
      → Dispatched {A = ⊤} s (r, t)
      → Undone s.committed (conclude env e r t)
  unfolding conclude
  conclude-Undone e s (ok _) t d = note_success-Undone e s.committed t
  conclude-Undone e s (raised x) t d = note_failure-Undone e x s t d.dispatches

  dispatched-Undone : (e : Event) (s : Session) → Undone s.committed (dispatched env e s)
  unfolding dispatched
  dispatched-Undone e s =
      let (r, t) = dispatch env e s in conclude-Undone e s r t (dispatch-Dispatched env e s)

  stored-Undone :
      (e : Event) (body : String) (row : Option WebhookEvent) (s : Session)
      → Undone s.committed ((store_event e body row >>= λ _. dispatched env e) s)
  unfolding store_event
  stored-Undone e body none s = dispatched-Undone e _
  stored-Undone e body (some w) s = dispatched-Undone e s

  handle_event-Undone :
      (e : Event) (body : String) (s : Session) → Undone s.committed (handle_event env e body s)
  unfolding handle_event
  handle_event-Undone e body s = elim (Bool-cases (is_processed (find_event e.id s))) [
    | inl again ↦ rw again (record { undoes = tt })
    | inr first ↦ rw first (stored-Undone e body (find_event e.id s) s)
  ]

  construction-Undone :
      (c : Construction) (body : String) (s : Session)
      → Undone s.committed (handle_construction env c body s)
  unfolding handle_construction
  construction-Undone (event e) body s = handle_event-Undone e body s
  construction-Undone bad_signature body s = record { undoes = refl }
  construction-Undone bad_payload body s = record { undoes = refl }

  header-Undone :
      (signature : Option String) (body : String) (s : Session)
      → Undone s.committed (
          (or_raise signature (app invalid_signature_error) >>= λ given.
          handle_construction env (env.construct_event body given) body)
            s)
  header-Undone none body s = record { undoes = refl }
  header-Undone (some given) body s = construction-Undone (env.construct_event body given) body s

  -- A delivery that the handler answers with an exception, whichever it is, leaves every committed
  -- table as it was but the table of events: no part of a payment, a booking or a checkout session
  -- that the event led to stays behind.
  pub stripe_webhook_atomic :
      (header : Option String) (body : String) (s : Session) (x : Exn) (t : Session)
      → stripe_webhook env header body s ≡ (raised x, t)
      → IsNoted s.committed t.committed
  unfolding stripe_webhook
  stripe_webhook_atomic header body s x t failed =
      rw failed at (header-Undone (truthy header) body s).undoes
