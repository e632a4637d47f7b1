-- ===== src/Webhook/Once.antt =====
-- An event is handled once.
use ix_gateway.Prelude.{
  String, true, Option, none, some, List, [], ◌∷◌, ◌++◌, ◌≡◌, refl, ◌∙◌, ap, find, inl, inr,
  Bool-cases, ⊤, ◌==◌, eq_refl,
}
use ix_gateway.Prelude.Text.{truthy}
use ix_gateway.Db.Query.{Row-find, same_key}
use ix_gateway.Errors.{Exn, app, webhook_handler_failed_error, invalid_signature_error}
use ix_gateway.Models.{WebhookEvent}
use ix_gateway.Env.{Env, Event, Construction, event, bad_signature, bad_payload}
use ix_gateway.Db.{Session, Result, ok, raised, raise, ◌>>=◌, ◌>>◌, or_raise}
use ix_gateway.Webhook.Outcome.{Dispatched, dispatch-Dispatched}
use ix_gateway.Webhook.{
  Received, duplicate, find_event, is_processed, new_event, replace_event, store_event, save_event,
  note_error, note_processed, note_failure, note_success, dispatch, conclude, dispatched,
  handle_event, handle_construction, stripe_webhook,
}

module _ (k : String) where
  pub find-append :
      (ws : List WebhookEvent) (w : WebhookEvent)
      → find (λ x. x.id == k) ws ≡ none
      → (w.id == k) ≡ true
      → find (λ x. x.id == k) (ws ++ w ∷ []) ≡ some w
  find-append [] w absent same = rw same refl
  find-append (x ∷ ws) w absent same = elim (Bool-cases (x.id == k)) [
    | inl here ↦ let absurd = rw here at absent in cc
    | inr there ↦ rw there (find-append ws w (rw there at absent) same)
  ]

  -- Writing the row that a search finds changes what the search finds.
  pub find-replace_event :
      (ws : List WebhookEvent) (old new : WebhookEvent)
      → find (λ x. x.id == k) ws ≡ some old
      → (new.id == k) ≡ true
      → find (λ x. x.id == k) (replace_event new ws) ≡ some new
  find-replace_event [] old new found same = cc
  find-replace_event (x ∷ ws) old new found same = elim (Bool-cases (x.id == k)) [
    | inl here ↦ rw (same_key k x.id new.id same, here, same) refl
    | inr there ↦
        rw (same_key k x.id new.id same, there, there)
          (find-replace_event ws old new (rw there at found) same)
  ]

-- A table in which an event is marked as processed.
abbrev pub IsHandled : String → Session → Type 0
IsHandled k s = is_processed (find_event k s) ≡ true

-- The outcome of a delivery: if it returned, its event is marked.
abbrev Marks : String → Result Received × Session → Type 0
Marks k (ok _, t) = IsHandled k t
Marks k (raised _, t) = ⊤

pub record Marked (k : String) (outcome : Result Received × Session) : Type 0 where
  pub marks : Marks k outcome

note_success-Marked :
    (e : Event) (w : WebhookEvent) (s : Session)
    → find_event e.id s ≡ some w
    → Marked e.id (note_success e s)
unfolding note_success note_processed save_event
note_success-Marked e w s found = rw found (record {
  marks =
      rw
        (find-replace_event e.id s.db.webhook_events w (record w { processed_at = some s.now })
          found (Row-find (λ x. x.id == e.id) s.db.webhook_events w found).1)
        refl;
})

note_failure-Marked : (e : Event) (x : Exn) (s : Session) → Marked e.id (note_failure e x s)
unfolding note_failure note_error save_event
note_failure-Marked e x s = go (find_event e.id (record s { db = s.committed }))
  where
    go :
        (row : Option WebhookEvent)
        → Marked e.id (
            (note_error x row >> raise {A = Received} (app webhook_handler_failed_error))
              (record s { db = s.committed }))
    go none = record { marks = tt }
    go (some w) = record { marks = tt }

module _ (env : Env) where
  conclude-Marked :
      (e : Event) (w : WebhookEvent) (s : Session) (r : Result ⊤) (t : Session)
      → find_event e.id s ≡ some w
      → Dispatched {A = ⊤} s (r, t)
      → Marked e.id (conclude env e r t)
  unfolding conclude
  conclude-Marked e w s (ok _) t found d =
      note_success-Marked e w t (ap (find (λ x. x.id == e.id)) d.dispatches ∙ found)
  conclude-Marked e w s (raised x) t found d = note_failure-Marked e x t

  dispatched-Marked :
      (e : Event) (w : WebhookEvent) (s : Session)
      → find_event e.id s ≡ some w
      → Marked e.id (dispatched env e s)
  unfolding dispatched
  dispatched-Marked e w s found =
      let (r, t) = dispatch env e s in conclude-Marked e w s r t found (dispatch-Dispatched env e s)

  stored :
      (e : Event) (body : String) (row : Option WebhookEvent) (s : Session)
      → find_event e.id s ≡ row
      → Marked e.id ((store_event e body row >>= λ _. dispatched env e) s)
  unfolding store_event
  stored e body none s found =
      let w = new_event e body s.now in
      dispatched-Marked e w _ (find-append e.id s.db.webhook_events w found (eq_refl e.id))
  stored e body (some w) s found = dispatched-Marked e w s found

  handle_event-Marked :
      (e : Event) (body : String) (s : Session) → Marked e.id (handle_event env e body s)
  unfolding handle_event
  handle_event-Marked e body s = elim (Bool-cases (is_processed (find_event e.id s))) [
    | inl again ↦ rw again (record { marks = again })
    | inr first ↦ rw first (stored e body (find_event e.id s) s refl)
  ]

  construction_once :
      (c : Construction) (body : String) (s : Session) (r : Received) (t u : Session)
      → handle_construction env c body s ≡ (ok r, t)
      → u.db.webhook_events ≡ t.db.webhook_events
      → handle_construction env c body u ≡ (ok duplicate, u)
  unfolding handle_construction handle_event
  construction_once (event e) body s r t u done same =
      let marks = rw done at (handle_event-Marked e body s).marks in
      let handled : IsHandled e.id u = rw same marks in rw handled refl
  construction_once bad_signature body s r t u done same = cc
  construction_once bad_payload body s r t u done same = cc

  header_once :
      (signature : Option String) (body : String) (s : Session) (r : Received) (t u : Session)
      → (or_raise signature (app invalid_signature_error) >>= λ given.
            handle_construction env (env.construct_event body given) body)
          s
        ≡ (ok r, t)
      → u.db.webhook_events ≡ t.db.webhook_events
      → (or_raise signature (app invalid_signature_error) >>= λ given.
            handle_construction env (env.construct_event body given) body)
          u
        ≡ (ok duplicate, u)
  header_once none body s r t u done same = cc
  header_once (some given) body s r t u done same =
      construction_once (env.construct_event body given) body s r t u done same

  -- Once a delivery has been answered with success, the same delivery is answered as a duplicate in
  -- every later session whose table of events is the same, and changes nothing in it: no booking, no
  -- call of Stripe.
  pub stripe_webhook_once :
      (header : Option String) (body : String) (s : Session) (r : Received) (t u : Session)
      → stripe_webhook env header body s ≡ (ok r, t)
      → u.db.webhook_events ≡ t.db.webhook_events
      → stripe_webhook env header body u ≡ (ok duplicate, u)
  unfolding stripe_webhook
  stripe_webhook_once header body s r t u done same =
      header_once (truthy header) body s r t u done same
