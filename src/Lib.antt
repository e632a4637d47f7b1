-- ===== src/Lib.antt =====
-- 6ix-gateway: the payment gateway's services, routes and bookkeeping, as functions on a database
-- session, with the theorems that make them correct.
--
-- The program is a FastAPI application over PostgreSQL and Stripe. A request opens a session
-- (app/core/db.py), passes a gate (app/core/auth.py or app/core/security.py), the checks of its body
-- (app/schemas/) and a handler (app/api/), which calls a service (app/services/). Services change
-- rows (app/models/), call Stripe through app/services/stripe_client.py and book what they do in a
-- double-entry ledger. Stripe's webhooks (app/api/webhooks.py) report payments back. A worker
-- (app/workers/reconciliation.py) compares the intents with the ledger.
--
-- Files:
--   Prelude        integers, texts, lists and Boolean tests that the others share
--   Errors         app/core/errors.py: the exceptions with their codes and HTTP statuses; its child
--                  Render is the exception handlers of main.py
--   Settings       app/core/config.py: the validator of the database URL, and what the log says of the
--                  webhook secret
--   Models         app/models/: a record for each table's rows, and the enums
--   Env            Stripe, random draws, digests and settings, as parameters
--   Db             app/core/db.py: the session, its transaction, results and exceptions
--   StripeClient   app/services/stripe_client.py: the mutating calls, and the listing of balance
--                  transactions page by page
--   Ledger         app/services/ledger.py: transactions, entries of an intent; its child Balances is
--                  get_balances_by_currency
--   Payment        app/services/payment.py: create, confirm, cancel, capture, refund. Its child Upholds
--                  is what the other services rely on: an invariant of the tables of intents, of
--                  ledger entries and of API keys, and the record of the laws that the payment service
--                  owes it; Books and Life are the invariants of its tables, Race two refunds that
--                  overlap
--   Checkout       app/services/checkout_session.py
--   Webhook        app/api/webhooks.py: the handler and its dispatch
--   ApiKeys        app/services/api_key.py; the laws it owes an invariant of the keys are in its child
--                  Upholds, and what lasts of a key in Lasting
--   Auth           app/core/auth.py and app/core/security.py: the two gates
--   Merchants      app/services/merchant.py
--   Reconciliation app/workers/reconciliation.py: reconcile_recent; its child Day is reconcile_day
--   Schemas        app/schemas/: the checks of request bodies, and the views in the answers
--   Api            app/api/: the routes, with app/api/dashboard.py's lists in its child Dashboard
--   Gateway        main.py: the application, request by request; its children Responses, the answers of
--                  the routes, and Worker, run_forever of app/workers/reconciliation.py
--   Html           main.py: escapes, amounts and the substitution of tokens; its child Float is the float
--                  of an amount
--   HostedPage     main.py: the public page of a checkout session
--   Migrations     alembic/versions/: the migrations, and what their operations do to a schema
--   Samples, Tests sample data, and a run of the gateway on it
-- A component's children hold what is proved of it: Upholds is about an invariant of the payment
-- service, Consistent about the books, Outcome about how its calls end.
--
-- A call is a function from a session to a result and a session. A session has the committed
-- tables, the tables as the transaction sees them, the time, the count of random draws and the calls
-- that Stripe has had. `commit` copies the tables to the committed ones, `rollback` copies them back,
-- and `get_db` drops at a request's end what was not committed. A flush writes at once, with the
-- errors that the unique columns raise. An exception is a value: it keeps what was written before
-- it until a rollback, as the source does.
--
-- Stripe's list endpoint answers a query by a page. The loop that follows the pages runs on fuel: more
-- fuel than there are items of a type is enough, since every page but the last has an item. A
-- reconciliation reads all pages first and then opens its session, as the source does. Dates are days
-- since the epoch, and the pages of a listing are read at one time.
--
-- Amounts are integers without a bound; the columns are BigInteger. A time is a number of seconds.
-- A Stripe call is answered by a function of the calls before it, so nothing is assumed of the
-- answers, nor of the digests and the identifiers. `str.lower` acts on ASCII letters. Requests run
-- one after another. Of transactions that interleave only two refunds of one intent are modelled: the
-- part of a refund behind its checks takes the row as it was read, whatever the tables are by then.
-- Row locks and serialization failures are not modelled. The worker's endless loop is its rounds, each
-- a pass and the requests that come in during the sleep after it. Foreign keys, the lengths of columns
-- and a clash of two ledger entries' ids are not checked at a flush; where it is said that an order
-- goes through, its row and its account's name are assumed to fit their columns. The texts in errors
-- and log lines are left out; the error that a webhook row keeps is the exception itself.
--
-- The displayed amount of a page goes through a float, as in the source: Html.Float rounds the quotient
-- to 53 bits and the float to cents, both to the even neighbour. Sixty doublings reach the scale of
-- every amount, and the overflow of a float above 2 ** 1023 is out of the reach of a BigInteger.
-- `str.upper` acts on ASCII letters like `str.lower`. The HTML templates are arguments, and so is the
-- text that a raiser gives to an error. How the list of transactions places rows of one creation time
-- is a parameter, and may differ from page to page. Other rows that a query does not order, or that
-- share a time, come in the order of their insertion.
--
-- A schema is a list of enums, of tables and of indexes. The operations check names, the tables that a
-- foreign key refers to and that an index is on, and refuse to drop a table that another refers to; the
-- enum type of a column is not looked up.
--
-- Not modelled: the reading of the settings from the environment, which the framework does, the runner
-- of the migrations, the set-up of the application (logging, static files, the health check), the two
-- schemas that no route answers with, and retrieve_payment_intent of the Stripe client, which nothing
-- calls.
pub mod Prelude
pub mod Errors
pub mod Models
pub mod Env
pub mod Db
pub mod StripeClient
pub mod Ledger
pub mod Payment
pub mod Checkout
pub mod Webhook
pub mod ApiKeys
pub mod Merchants
pub mod Auth
pub mod Reconciliation
pub mod Schemas
pub mod Api
pub mod Gateway
pub mod Settings
pub mod Migrations
pub mod Html
pub mod HostedPage
pub mod Samples
mod Tests
