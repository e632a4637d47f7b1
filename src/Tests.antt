-- ===== src/Tests.antt =====
-- A run of the gateway on sample data, with the theorems at work on it.
use ix_gateway.Prelude.{refl, Bool, map, select, arith, ℕ, none, some, List, [], ◌∷◌, ◌≡◌, length}
use ix_gateway.Prelude.Int.{pos}
use ix_gateway.Db.{Session}
use ix_gateway.Payment.Safe.{Holds}
use ix_gateway.Ledger.{pair, record_transaction}
use ix_gateway.Ledger.Record.{Records, record_transaction-Records}
use ix_gateway.Samples.{
  sample_row, sample_merchant, sample_open, sample_env, sample_header, sample_order,
}
use ix_gateway.Api.Dashboard.{fits, TransactionQuery, get_balance, list_transactions}
use ix_gateway.Api.Dashboard.Balance.{
  ShowsNets, get_balance-ShowsNets, ShowsZero, get_balance-ShowsZero,
}
use ix_gateway.Api.Dashboard.Order.{IsNewestFirst, count_of}
use ix_gateway.Api.Dashboard.Pages.{
  ListsOwn, list_transactions-ListsOwn, read_pages, read_pages_all,
}
use ix_gateway.Schemas.Views.{read_intent}
use ix_gateway.Models.{PaymentIntent, succeeded}
use ix_gateway.Gateway.{
  Request, create_merchant, issue_api_key, create_payment_intent, webhook, refund_payment_intent,
  run, start,
}
use ix_gateway.Gateway.Consistent.{run-start-Holds, run-Holds, start-Holds}

abbrev sample_history : List (ℕ × Request)
sample_history =
    (0, create_merchant (some "admin") "Acme" "Shop@acme.io")
    ∷ (1, issue_api_key (some "admin") "mer_0" "till")
    ∷ (2, create_payment_intent sample_header sample_order)
    ∷ (3, webhook (some "t=1") "{}")
    ∷ (
      4,
      refund_payment_intent sample_header "pi_local_1110"
          (record { amount = some (pos 200); idempotency_key = "refund-0001"; reason = none }),
    )
    ∷ []

abbrev sample_session : Session
sample_session = run sample_env sample_history start

abbrev sample_counts : ℕ × ℕ
sample_counts = (
  length sample_session.committed.payment_intents,
  length sample_session.committed.ledger_entries,
)

sample_Holds : Holds sample_session.db × Holds sample_session.committed
sample_Holds =
    run-Holds sample_env sample_history start (start-Holds sample_env) (start-Holds sample_env)

run-start-Holds_example : Holds (run sample_env sample_history start).committed
run-start-Holds_example = run-start-Holds sample_env sample_history

record_transaction-Records_example : Records sample_session (
    record_transaction sample_env
      (pair "till" "bank" (pos 3))
      "usd"
      none
      none
      []
      none
      sample_session)
record_transaction-Records_example =
    record_transaction-Records sample_env (pair "till" "bank" (pos 3)) "usd" none none [] none
      sample_session

get_balance-ShowsZero_example :
    ShowsZero sample_env sample_header sample_session
      (get_balance sample_env sample_header sample_session)
get_balance-ShowsZero_example =
    get_balance-ShowsZero sample_env sample_header sample_session sample_Holds.0 sample_Holds.1

get_balance-ShowsNets_example :
    ShowsNets sample_env sample_header sample_session
      (get_balance sample_env sample_header sample_session)
get_balance-ShowsNets_example = get_balance-ShowsNets sample_env sample_header sample_session

abbrev sample_query : TransactionQuery
sample_query = record { page = pos 1; page_size = pos 50; status_filter = none; currency = none }

list_transactions-ListsOwn_example :
    ListsOwn sample_env sample_header sample_query sample_session
      (list_transactions sample_env sample_header sample_query sample_session)
list_transactions-ListsOwn_example =
    list_transactions-ListsOwn sample_env sample_header sample_query sample_session

-- Two intents of different times, with one on a page.
abbrev two_intents : List PaymentIntent
two_intents =
    sample_row succeeded ∷ record (sample_row succeeded) { id = "pi_local_1"; created_at = 5 } ∷ []

abbrev with_two : Session
with_two = record (sample_open succeeded) {
  db = record (sample_open succeeded).db { payment_intents = two_intents };
}

read_pages_all_example :
    (ps : List PaymentIntent) × (read_pages sample_env sample_merchant sample_query 1 with_two 2
      ≡ map read_intent ps)
    × IsNewestFirst ps
    × ((test : PaymentIntent → Bool)
        → count_of test ps
          ≡ count_of test (select (fits sample_merchant sample_query) with_two.db.payment_intents))
read_pages_all_example =
    read_pages_all sample_env sample_merchant sample_query 1 with_two ((refl, tt), (tt, tt)) 2
      (omega arith)
