-- ===== src/Gateway/Life.antt =====
-- The life of the intents and of the ledger over every history of requests.
use ix_gateway.Prelude.{ℕ, List, [], ◌∷◌, ◌++◌, ◌≡◌, refl, Row}
use ix_gateway.Prelude.Dict.Distinct.{IsDistinct}
use ix_gateway.Models.{PaymentIntent, LedgerEntry}
use ix_gateway.Env.{Env}
use ix_gateway.Db.{Session, get_db}
use ix_gateway.Payment.Upholds.{OnPayments, Meets}
use ix_gateway.Payment.Life.{ids, Reach, here}
use ix_gateway.Payment.Life.Lasting.{Carried, Reach-Carried, Reach-appends}
use ix_gateway.Payment.Life.Refines.{IsReached, tables, IsReached-payments}
use ix_gateway.Gateway.{Request, serve, run, start}
use ix_gateway.ApiKeys.Upholds.{OnPayments-UpheldByKeys}
use ix_gateway.Payment.Upholds.{OnPayments}
use ix_gateway.Gateway.Upholds.{run-Meets}

-- Nothing is pending, and no two intents have one id.
pub record IsAtRest (s : Session) : Type 0 where
  pub rests : s.db ≡ s.committed
  pub distinct : IsDistinct (ids s.committed.payment_intents)

pub start-IsAtRest : IsAtRest start
start-IsAtRest = record { rests = refl; distinct = tt }

module _ (env : Env) where
  run-db :
      (rs : List (ℕ × Request)) (s : Session)
      → s.db ≡ s.committed
      → (run env rs s).db ≡ (run env rs s).committed
  unfolding run serve get_db
  run-db [] s e = e
  run-db ((at, r) ∷ rs) s e = run-db rs (serve env (at, r) s) refl

  run-IsReached :
      (rs : List (ℕ × Request)) (s : Session)
      → IsAtRest s
      → Meets (OnPayments (IsReached (tables s.committed))) (run env rs s).committed
  run-IsReached rs s rest =
      let now : Meets (OnPayments (IsReached (tables s.committed))) s.committed =
        (rest.distinct, here) in
      (run-Meets env (OnPayments-UpheldByKeys env) (IsReached-payments env) rs s (rw rest.rests now)
        now).1

  -- Every history of requests ends in such a session.
  pub run-IsAtRest : (rs : List (ℕ × Request)) (s : Session) → IsAtRest s → IsAtRest (run env rs s)
  run-IsAtRest rs s rest = record {
    rests = run-db rs s rest.rests;
    distinct = (run-IsReached rs s rest).0;
  }

  pub run-Reach :
      (rs : List (ℕ × Request)) (s : Session)
      → IsAtRest s
      → Reach (tables s.committed) (tables (run env rs s).committed)
  run-Reach rs s rest = (run-IsReached rs s rest).1

  -- If nothing is pending in a session and no two of its intents have one id, then an intent of the
  -- committed table stays there over every history of requests, in a row with its id, Stripe id,
  -- idempotency key, merchant, customer, amount, currency and creation time, and with refunds that
  -- are at least what they were; and if it was paid, it is still paid, with the same receipt.
  pub run-Carried :
      (rs : List (ℕ × Request)) (s : Session) (p : PaymentIntent)
      → IsAtRest s
      → Row p s.committed.payment_intents
      → Carried p (run env rs s).committed.payment_intents
  run-Carried rs s p rest row = Reach-Carried p (run-Reach rs s rest) row

  -- If nothing is pending in a session and no two of its intents have one id, then over every
  -- history of requests the ledger only grows: the committed entries are those that were there, in
  -- their order and unchanged, and after them new ones.
  pub run-appends :
      (rs : List (ℕ × Request)) (s : Session)
      → IsAtRest s
      → (es : List LedgerEntry) × ((run env rs s).committed.ledger_entries
          ≡ s.committed.ledger_entries ++ es)
  run-appends rs s rest = Reach-appends (run-Reach rs s rest)
