-- ===== src/Reconciliation.antt =====
-- app/workers/reconciliation.py: the check of our own ledger.
pub mod NoDrift
pub mod Day
mod Tests
use ix_gateway.Prelude.{
  ℕ, ◌+◌, String, Bool, not, List, [], ◌∷◌, length, select, leb, ◌==◌, if◌then◌else◌,
}
use ix_gateway.Prelude.Int.{ℤ, pos, ◌-ℤ◌, eqb_ℤ}
use ix_gateway.Models.{PaymentIntent, LedgerEntry, is_succeeded}
use ix_gateway.Db.{Db, Session, Exec, pure, gets, session_scope, ◌>>=◌}
use ix_gateway.Ledger.{sum_signed, list_entries_for_intent}
use ix_gateway.Payment.{payments_captured}

pub record Drift : Type 0 where
  pub intent_id : String
  pub expected : ℤ
  pub actual : ℤ

pub record RecentReport : Type 0 where
  pub checked : ℕ
  pub drift : List Drift

-- What the ledger should hold for an intent.
unfoldable pub expected_captured : PaymentIntent → ℤ
expected_captured p =
    if is_succeeded p.status then p.amount_received -ℤ p.amount_refunded else pos 0

-- What it holds.
unfoldable pub captured_of : List LedgerEntry → ℤ
captured_of entries = sum_signed (select (λ e. e.account == payments_captured) entries)

-- The loop over the intents.
pub walk : List PaymentIntent → Exec (List Drift)
walk [] = pure []
walk (p ∷ rest) = do
  entries ← list_entries_for_intent p.id
  drift ← walk rest
  let actual = captured_of entries
  pure (
      if not (eqb_ℤ actual (expected_captured p))
      then record { intent_id = p.id; expected = expected_captured p; actual = actual } ∷ drift
      else drift)

-- `created_at >= now - window`
abbrev pub recent : (window : ℕ) → Session → List PaymentIntent
recent window s = select (λ p. leb s.now (p.created_at + window)) s.db.payment_intents

pub recent_report : (window : ℕ) → Exec RecentReport
recent_report window = do
  intents ← gets (recent window)
  drift ← walk intents
  pure (record { checked = length intents; drift = drift })

pub reconcile_recent : (window : ℕ) → Exec RecentReport
reconcile_recent window = session_scope (recent_report window)
