-- ===== src/Gateway/Worker.antt =====
-- app/workers/reconciliation.py: `run_forever`, beside the requests that come in while it sleeps.
use ix_gateway.Prelude.{ℕ, suc, List, [], ◌∷◌, ◌≡◌, refl, length, All, ap}
use ix_gateway.Env.{Env}
use ix_gateway.Db.{Session, Result, ok, raised}
use ix_gateway.Reconciliation.{RecentReport, reconcile_recent}
use ix_gateway.Reconciliation.NoDrift.{reconcile_recent_clean, reconcile_recent_session}
use ix_gateway.Payment.Safe.{Holds}
use ix_gateway.Gateway.{Request, run, start}
use ix_gateway.Gateway.Consistent.{run-Holds, start-Holds}

-- The default window of `reconcile_recent`, in seconds.
abbrev pub default_window : ℕ
default_window = 86400

-- The time of a pass, and the requests that come in during the sleep after it.
abbrev pub Round : Type 0
Round = ℕ × List (ℕ × Request)

module _ (env : Env) where
  -- What each pass ends with. An exception is logged like a report, and the loop goes on.
  pub run_forever : List Round → Session → List (Result RecentReport)
  run_forever [] s = []
  run_forever ((at, requests) ∷ rounds) s =
      let (result, t) = reconcile_recent default_window (record s { now = at }) in
      result ∷ run_forever rounds (run env requests t)

  abbrev pub IsClean : Result RecentReport → Type 0
  IsClean (raised _) = ⊥
  IsClean (ok report) = report.drift ≡ []

  watch-IsClean :
      (rounds : List Round) (s : Session)
      → Holds s.db
      → Holds s.committed
      → All IsClean (run_forever rounds s)
  unfolding run_forever
  watch-IsClean [] s h k = tt
  watch-IsClean ((at, requests) ∷ rounds) s h k =
      let now : Session = record s { now = at } in
      let (x, y) = run-Holds env requests (record now { committed = s.db }) h h in
      rw
        (reconcile_recent_clean default_window now h, reconcile_recent_session default_window now h)
        (refl, watch-IsClean rounds (run env requests (record now { committed = s.db })) x y)

  length-run_forever :
      (rounds : List Round) (s : Session) → length (run_forever rounds s) ≡ length rounds
  unfolding run_forever
  length-run_forever [] s = refl
  length-run_forever ((at, requests) ∷ rounds) s = ap suc (length-run_forever rounds _)

  -- Started at any point of the gateway's history, and with any requests coming in while it sleeps,
  -- the worker makes a pass in every round, and every pass ends with a report without drift, so none
  -- logs a failure.
  pub run_forever-IsClean :
      (past : List (ℕ × Request)) (rounds : List Round)
      → All IsClean (run_forever rounds (run env past start))
        × (length (run_forever rounds (run env past start)) ≡ length rounds)
  run_forever-IsClean past rounds =
      let (h, k) = run-Holds env past start (start-Holds env) (start-Holds env) in
      (
        watch-IsClean rounds (run env past start) h k,
        length-run_forever rounds (run env past start),
      )
