-- ===== src/Reconciliation/Day/Complete.antt =====
-- A whole reconciliation of a day, the reading of Stripe's pages included.
use ix_gateway.Prelude.{ℕ, ◌+◌, ◌*◌, ◌<◌, some, List, ◌++◌, ◌≡◌, refl, length}
use ix_gateway.Env.{Env, BalanceTransaction}
use ix_gateway.Db.{Session}
use ix_gateway.StripeClient.Pages.{IsDistinct, Serves, list_balance_transactions-all}
use ix_gateway.Reconciliation.Day.{record_run, reconcile_day}

-- If Stripe serves the charges and the refunds of a day's 86400 seconds in pages of 100 items, each
-- without a repeated id, and the fuel is more than the length of either, the reconciliation of the
-- day ends, and is the pass over all the charges and all the refunds.
pub reconcile_day-record_run :
    (env : Env) (fuel day : ℕ) (charges refunds : List BalanceTransaction) (s : Session)
    → IsDistinct charges
    → IsDistinct refunds
    → Serves (env.balance_page s.calls) (day * 86400) (day * 86400 + 86400) (some "charge") charges
    → Serves (env.balance_page s.calls) (day * 86400) (day * 86400 + 86400) (some "refund") refunds
    → length charges < fuel
    → length refunds < fuel
    → reconcile_day env fuel day s ≡ some (record_run env day (charges ++ refunds) s)
unfolding reconcile_day
reconcile_day-record_run env fuel day charges refunds s dc dr sc sr fc fr =
    rw
      (list_balance_transactions-all (env.balance_page s.calls) fuel (day * 86400)
        (day * 86400 + 86400) charges refunds dc dr sc sr fc fr)
      refl
