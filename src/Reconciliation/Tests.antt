-- ===== src/Reconciliation/Tests.antt =====
-- A day at Stripe and in our books, with the theorems on the reconciliation at work on it.
use ix_gateway.Prelude.{
  String, Option, none, some, List, [], ◌∷◌, ◌++◌, ◌≡◌, refl, if◌then◌else◌, ◌==◌, arith,
}
use ix_gateway.Prelude.Int.{◌+ℤ◌, pos, negsuc, ◌-ℤ◌}
use ix_gateway.Prelude.Dict.{get, set_key, sorted, union, total}
use ix_gateway.Env.{Env, BalanceTransaction, answered, expanded, text_ref, dict_ref}
use ix_gateway.Db.{Db, Session, ok, uuid4_hex, session_scope}
use ix_gateway.Models.{PaymentIntent, ReconciliationRun, missing_internal, succeeded}
use ix_gateway.StripeClient.{list_balance_transactions}
use ix_gateway.StripeClient.Pages.{IsDistinct, after, page_of, list_balance_transactions-all}
use ix_gateway.Samples.{sample_env, sample_db, sample_row}
use ix_gateway.Reconciliation.Day.{
  record_run, reconcile_day, add_run, classify, stripe_by_pi, internal_by_pi, internal_intents,
  day_intents,
}
use ix_gateway.Reconciliation.Day.Exact.{RunOutcome, record_run-RunOutcome}
use ix_gateway.Reconciliation.Day.Balance.{imbalance, record_run-imbalance}
use ix_gateway.Reconciliation.Day.Complete.{reconcile_day-record_run}

abbrev charges : List BalanceTransaction
charges =
    record { id = "txn_1"; amount = pos 500; source = expanded (text_ref "pi_1") }
    ∷ record { id = "txn_2"; amount = pos 300; source = expanded (text_ref "pi_9") }
    ∷ []

abbrev refunds : List BalanceTransaction
refunds =
    record { id = "txn_3"; amount = negsuc 199; source = expanded (dict_ref (some "pi_1")) } ∷ []

abbrev items_of : Option String → List BalanceTransaction
items_of none = []
items_of (some type) = if type == "charge" then charges else refunds

abbrev day_env : Env
day_env = record sample_env {
  balance_page =
      λ calls query. answered (page_of 100 (after query.starting_after (items_of query.type)));
}

-- Ours: 500 received for pi_1, of which 200 went back, and nothing of pi_9.
abbrev day_row : PaymentIntent
day_row = record (sample_row succeeded) { amount_received = pos 500; amount_refunded = pos 200 }

abbrev day_db : Db
day_db = record (sample_db succeeded) { payment_intents = day_row ∷ [] }

abbrev day_session : Session
day_session = record { committed = day_db; db = day_db; now = 90000; uuids = 7; calls = [] }

abbrev day_run : ReconciliationRun
day_run = record {
  id = "rr_11111110";
  run_date = 0;
  total_stripe = pos 600;
  total_internal = pos 300;
  mismatches_count = 1;
  mismatches = missing_internal "pi_9" (pos 300) ∷ [];
  created_at = 90000;
}

charges-IsDistinct : IsDistinct charges
charges-IsDistinct = ((refl, tt), (tt, tt))

refunds-IsDistinct : IsDistinct refunds
refunds-IsDistinct = (tt, tt)

list_balance_transactions-all_example :
    list_balance_transactions (day_env.balance_page []) 3 0 86400 ("charge" ∷ "refund" ∷ [])
    ≡ some (ok (charges ++ refunds))
list_balance_transactions-all_example =
    list_balance_transactions-all (day_env.balance_page []) 3 0 86400 charges refunds
      charges-IsDistinct refunds-IsDistinct (λ cursor. refl) (λ cursor. refl) (omega arith)
      (omega arith)

record_run-RunOutcome_example :
    RunOutcome 0
      (charges ++ refunds)
      day_session
      (record_run day_env 0 (charges ++ refunds) day_session)
record_run-RunOutcome_example = record_run-RunOutcome day_env 0 (charges ++ refunds) day_session

day_run_returned : (record_run day_env 0 (charges ++ refunds) day_session).0 ≡ ok day_run
unfolding record_run session_scope uuid4_hex add_run total classify stripe_by_pi internal_by_pi
    sorted set_key internal_intents union ◌+ℤ◌ day_intents get ◌-ℤ◌
day_run_returned = refl

record_run-imbalance_example : imbalance day_run.mismatches ≡ pos 600 -ℤ pos 300
record_run-imbalance_example =
    record_run-imbalance day_env 0 (charges ++ refunds) day_session day_run day_run_returned

reconcile_day-record_run_example :
    reconcile_day day_env 3 0 day_session
    ≡ some (record_run day_env 0 (charges ++ refunds) day_session)
reconcile_day-record_run_example =
    reconcile_day-record_run day_env 3 0 charges refunds day_session charges-IsDistinct
      refunds-IsDistinct (λ cursor. refl) (λ cursor. refl) (omega arith) (omega arith)
