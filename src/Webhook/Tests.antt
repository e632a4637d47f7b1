-- ===== src/Webhook/Tests.antt =====
-- The theorems on the webhook handler, at work on an event.
use ix_gateway.Prelude.{[], ◌∷◌, arith, some, ◌≡◌, refl}
use ix_gateway.Prelude.Int.{pos, ◌+ℤ◌}
use ix_gateway.Errors.{app, webhook_handler_failed_error}
use ix_gateway.Models.{processing}
use ix_gateway.Env.{Env, event}
use ix_gateway.Db.{Session, ok, raised, uuid4_hex}
use ix_gateway.Samples.{
  sample_env, sample_event, sample_open, sample_row, sample_checkout, sample_checkout,
}
use ix_gateway.Ledger.{sum_legs, transaction_id_or_new, add_entries, record_transaction}
use ix_gateway.Payment.{save_intent, find_by_stripe_id, capture, apply_succeeded_event}
use ix_gateway.Checkout.{get_by_id, set_status, find_by_payment_intent, complete_session}
use ix_gateway.Webhook.Pays.{Pays, paid_row, paid_entries, stripe_webhook-Pays}
use ix_gateway.Webhook.Once.{stripe_webhook_once}
use ix_gateway.Webhook.Failure.{IsNoted, stripe_webhook_atomic}
use ix_gateway.Webhook.{
  received, duplicate, store_event, complete_linked, save_event, note_error, note_processed,
  note_failure, note_success, dispatch, conclude, dispatched, handle_event, handle_construction,
  stripe_webhook,
}

abbrev delivered : Session
delivered = (stripe_webhook sample_env (some "t=1") "{}" (sample_open processing)).1

first_delivery :
    stripe_webhook sample_env (some "t=1") "{}" (sample_open processing) ≡ (ok received, delivered)
unfolding stripe_webhook handle_construction handle_event store_event dispatched dispatch conclude
    apply_succeeded_event find_by_stripe_id capture save_intent record_transaction sum_legs
    transaction_id_or_new add_entries uuid4_hex complete_linked find_by_payment_intent get_by_id
    set_status complete_session note_success note_processed save_event ◌+ℤ◌
first_delivery = refl

stripe_webhook_once_example :
    stripe_webhook sample_env (some "t=1") "{}" delivered ≡ (ok duplicate, delivered)
stripe_webhook_once_example =
    stripe_webhook_once sample_env (some "t=1") "{}" (sample_open processing) received delivered
      delivered first_delivery refl

-- Stripe reports a payment of nothing, which the ledger refuses.
abbrev free_env : Env
free_env = record sample_env {
  construct_event =
      λ body header. event (record sample_event { object_amount_received = some (pos 0) });
}

abbrev refused : Session
refused = (stripe_webhook free_env (some "t=1") "{}" (sample_open processing)).1

failed_delivery :
    stripe_webhook free_env (some "t=1") "{}" (sample_open processing)
    ≡ (raised (app webhook_handler_failed_error), refused)
unfolding stripe_webhook handle_construction handle_event store_event dispatched dispatch conclude
    apply_succeeded_event find_by_stripe_id capture save_intent record_transaction sum_legs
    note_failure note_error save_event ◌+ℤ◌
failed_delivery = refl

stripe_webhook_atomic_example : IsNoted (sample_open processing).committed refused.committed
stripe_webhook_atomic_example =
    stripe_webhook_atomic free_env (some "t=1") "{}" (sample_open processing)
      (app webhook_handler_failed_error) refused failed_delivery

stripe_webhook-Pays_example :
    Pays sample_event
      (paid_row sample_env sample_event (sample_row processing) (sample_open processing))
      (sample_row processing ∷ [])
      (paid_entries sample_env sample_event (sample_row processing) (sample_open processing))
      (sample_checkout ∷ [])
      (stripe_webhook sample_env (some "t=1") "{}" (sample_open processing))
stripe_webhook-Pays_example =
    stripe_webhook-Pays sample_env (some "t=1") "{}" "t=1" sample_event (sample_row processing)
      (sample_open processing) refl refl refl refl refl refl refl (omega arith)
