-- ===== src/Gateway/Consistent.antt =====
-- The invariant of the books over every history of requests.
use ix_gateway.Prelude.{ℕ, List, [], ◌≡◌, refl, length}
use ix_gateway.Env.{Env}
use ix_gateway.Db.{Session, ok}
use ix_gateway.Ledger.{sum_signed}
use ix_gateway.Reconciliation.{recent, reconcile_recent}
use ix_gateway.Reconciliation.NoDrift.{reconcile_recent_clean}
use ix_gateway.Payment.Safe.{Holds}
use ix_gateway.Payment.Consistent.{IsConsistent-payments}
use ix_gateway.Gateway.{Request, run, start}
use ix_gateway.ApiKeys.Upholds.{OnPayments-UpheldByKeys}
use ix_gateway.Gateway.Upholds.{run-Meets}

module _ (env : Env) where
  -- Sessions whose tables hold the books stay so under every history of requests, whatever Stripe
  -- answers and whichever requests fail.
  pub run-Holds :
      (rs : List (ℕ × Request)) (s : Session)
      → Holds s.db
      → Holds s.committed
      → Holds (run env rs s).db × Holds (run env rs s).committed
  run-Holds = run-Meets env (OnPayments-UpheldByKeys env) (IsConsistent-payments env)

  pub start-Holds : Holds start.db
  unfolding sum_signed
  start-Holds = record { balanced = λ keep. refl; settled = tt; referred = tt }

  -- After every history of requests from the empty tables, each at a time of its own, the books
  -- hold: what the ledger has captured for each intent is what was received for it less what was
  -- refunded, no more is refunded than received, nothing is received before success, and the
  -- entries of every currency and intent sum to zero.
  pub run-start-Holds : (rs : List (ℕ × Request)) → Holds (run env rs start).committed
  run-start-Holds rs = (run-Holds rs start start-Holds start-Holds).1

  -- After every history of requests from the empty tables `reconcile_recent` returns an empty drift
  -- list, whatever its window, and has checked every intent that is as young as the window.
  reconcile_recent-run :
      (rs : List (ℕ × Request)) (window : ℕ)
      → (reconcile_recent window (run env rs start)).0
        ≡ ok (record { checked = length (recent window (run env rs start)); drift = [] })
  reconcile_recent-run rs window =
      reconcile_recent_clean window (run env rs start)
        (run-Holds rs start start-Holds start-Holds).0
