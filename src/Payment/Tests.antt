-- ===== src/Payment/Tests.antt =====
-- The theorems on payment intents, at work on an order.
use ix_gateway.Prelude.{[], ◌∷◌, inl, none, some, ◌≡◌, refl}
use ix_gateway.Prelude.Int.{pos, ◌+ℤ◌, ◌-ℤ◌}
use ix_gateway.Errors.{app, idempotency_conflict_error}
use ix_gateway.Models.{
  PaymentIntent, LedgerEntry, credit, parse_status, succeeded, requires_confirmation, processing,
}
use ix_gateway.Db.{Session, ok, raised, uuid4_hex}
use ix_gateway.Env.{Env, answered}
use ix_gateway.Samples.{
  sample_env, sample_order, sample_intent, sample_open, sample_paid, sample_paid_row,
}
use ix_gateway.StripeClient.{create_payment_intent}
use ix_gateway.Ledger.{sum_signed, sum_legs, transaction_id_or_new, add_entries, record_transaction}
use ix_gateway.Payment.Replay.{create_intent_again}
use ix_gateway.Payment.StatusOutcome.{
  Confirms, Cancels, confirm_intent-Confirms, cancel_intent-Cancels,
}
use ix_gateway.Payment.Race.{Loses, overlapping, overlapping-Loses}
use ix_gateway.Payment.CreateDue.{HasCreated, create_intent-HasCreated}
use ix_gateway.Payment.RefundDue.{HasRefunded, refund_intent-HasRefunded}
use ix_gateway.Payment.RefundOutcome.{Outcome, refund_intent-Outcome}
use ix_gateway.Payment.CaptureOutcome.{Captures, apply_succeeded_event-Captures}
use ix_gateway.Payment.CreateOutcome.{CreateOutcomes, create_intent-CreateOutcomes}
use ix_gateway.Payment.{
  apply_succeeded_event, PaymentIntentConfirm, PaymentIntentCancel, confirm_intent, cancel_intent,
  PaymentIntentCreate, find_by_idempotency_key, add_intent, new_intent, create_new,
  create_or_replay, create_intent, refund_intent,
}

abbrev new_order : PaymentIntentCreate
new_order = record sample_order { idempotency_key = "order-0002" }

abbrev sample_created : PaymentIntent
sample_created =
    new_intent sample_env new_order (some "mer_0") (record sample_intent { id = "pi_2" })
      requires_confirmation "11111110" 100

abbrev other_env : Env
other_env = record sample_env {
  intents = λ calls call. answered (record sample_intent { id = "pi_2" });
}

abbrev after_create : Session
after_create = (create_intent other_env new_order (some "mer_0") (sample_open succeeded)).1

first_create :
    create_intent other_env new_order (some "mer_0") (sample_open succeeded)
    ≡ (ok sample_created, after_create)
unfolding create_intent find_by_idempotency_key create_or_replay create_new create_payment_intent
    parse_status uuid4_hex add_intent record_transaction sum_legs transaction_id_or_new add_entries
    ◌+ℤ◌
first_create = refl

create_intent_again_example :
    create_intent other_env (record new_order { amount = pos 7 }) none after_create
    ≡ (raised (app idempotency_conflict_error), after_create)
create_intent_again_example =
    create_intent_again other_env new_order (record new_order { amount = pos 7 }) (some "mer_0")
      none (sample_open succeeded) after_create after_create sample_created first_create refl refl

refund_intent-Outcome_example :
    Outcome sample_env "pi_local_0" "refund-0001" none none
      (sample_open succeeded)
      (refund_intent sample_env "pi_local_0" "refund-0001" none none (sample_open succeeded))
refund_intent-Outcome_example =
    refund_intent-Outcome sample_env "pi_local_0" "refund-0001" none none (sample_open succeeded)

abbrev sample_confirm : PaymentIntentConfirm
sample_confirm = record { idempotency_key = "confirm-0001"; payment_method_id = "pm_1" }

confirm_intent-Confirms_example :
    Confirms sample_env "pi_local_0" sample_confirm
      (sample_open processing)
      (confirm_intent sample_env "pi_local_0" sample_confirm (sample_open processing))
confirm_intent-Confirms_example =
    confirm_intent-Confirms sample_env "pi_local_0" sample_confirm (sample_open processing)

abbrev sample_cancel : PaymentIntentCancel
sample_cancel = record { idempotency_key = "cancel-0001"; reason = none }

cancel_intent-Cancels_example :
    Cancels sample_env "pi_local_0" sample_cancel
      (sample_open processing)
      (cancel_intent sample_env "pi_local_0" sample_cancel (sample_open processing))
cancel_intent-Cancels_example =
    cancel_intent-Cancels sample_env "pi_local_0" sample_cancel (sample_open processing)

apply_succeeded_event-Captures_example :
    Captures sample_env "pi_1"
      (pos 500)
      (sample_open processing)
      (apply_succeeded_event sample_env "pi_1" (pos 500) (sample_open processing))
apply_succeeded_event-Captures_example =
    apply_succeeded_event-Captures sample_env "pi_1" (pos 500) (sample_open processing)

create_intent-CreateOutcomes_example :
    CreateOutcomes other_env new_order
      (some "mer_0")
      (sample_open succeeded)
      (create_intent other_env new_order (some "mer_0") (sample_open succeeded))
create_intent-CreateOutcomes_example =
    create_intent-CreateOutcomes other_env new_order (some "mer_0") (sample_open succeeded)

refund_intent-HasRefunded_example :
    HasRefunded sample_env "pi_local_0" "refund-0001"
      (some (pos 200))
      none
      sample_paid
      (refund_intent sample_env "pi_local_0" "refund-0001" (some (pos 200)) none sample_paid)
unfolding ◌-ℤ◌
refund_intent-HasRefunded_example =
    refund_intent-HasRefunded sample_env "pi_local_0" "refund-0001" (some (pos 200)) none
      sample_paid sample_paid_row "pi_1" "re_1" (pos 200) refl refl refl refl refl refl refl

-- The capture of the paid intent.
abbrev capture_entry : LedgerEntry
capture_entry = record {
  id = "le_0";
  transaction_id = "tx_0";
  account = "payments_captured";
  direction = credit;
  amount = pos 500;
  currency = "usd";
  payment_intent_id = some "pi_local_0";
  description = none;
  entry_metadata = [];
  created_at = 0;
}

abbrev booked : Session
booked = record sample_paid { db = record sample_paid.db { ledger_entries = capture_entry ∷ [] } }

overlapping-Loses_example : Loses sample_paid_row (pos 200) (pos 100) (
    overlapping sample_env sample_paid_row "pi_1" "refund-0001" "refund-0002"
      (pos 200)
      (pos 100)
      none
      booked)
unfolding ◌-ℤ◌ ◌+ℤ◌ sum_signed
overlapping-Loses_example =
    overlapping-Loses sample_env sample_paid_row "pi_1" "refund-0001" "refund-0002" "re_1" "re_1"
      (pos 200) (pos 100) none booked (inl refl) refl refl refl refl refl

create_intent-HasCreated_example :
    HasCreated other_env new_order
      (some "mer_0")
      sample_paid
      (create_intent other_env new_order (some "mer_0") sample_paid)
unfolding parse_status ix_gateway.Prelude.Text.lower ix_gateway.Payment.customer_pending
create_intent-HasCreated_example =
    create_intent-HasCreated other_env new_order (some "mer_0") sample_paid refl
      (record sample_intent { id = "pi_2" }) requires_confirmation refl refl refl refl refl
