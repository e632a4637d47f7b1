-- ===== src/Db.antt =====
-- The database session that a request works with (app/core/db.py and SQLAlchemy's AsyncSession):
-- the committed tables, the tables as the session sees them, the time of the transaction, the
-- number of random draws and the calls that Stripe has had.
pub mod Query
pub mod Keeps
use ix_gateway.Prelude.{ℕ, String, ◌+◌, Bool, Option, none, some, List, [], ◌∷◌, ⊤, if◌then◌else◌}
use ix_gateway.Errors.{Exn, multiple_results}
use ix_gateway.Models.{
  PaymentIntent, LedgerEntry, CheckoutSession, WebhookEvent, Merchant, ApiKey, ReconciliationRun,
}
use ix_gateway.Env.{Env, StripeCall}

pub record Db : Type 0 where
  pub merchants : List Merchant
  pub api_keys : List ApiKey
  pub payment_intents : List PaymentIntent
  pub ledger_entries : List LedgerEntry
  pub checkout_sessions : List CheckoutSession
  pub webhook_events : List WebhookEvent
  pub reconciliation_runs : List ReconciliationRun

pub record Session : Type 0 where
  pub committed : Db
  pub db : Db
  pub now : ℕ
  pub uuids : ℕ
  pub calls : List StripeCall

pub data Result (A : Type 0) : Type 0 where
  ok : A → Result A
  raised : Exn → Result A

-- A call on a session: what it wrote before it raised stays in the session until a rollback.
abbrev pub Exec : Type 0 → Type 0
Exec A = Session → Result A × Session

module _ {A : Type 0} where
  abbrev pub pure : A → Exec A
  pure a s = (ok a, s)

  abbrev pub raise : Exn → Exec A
  raise e s = (raised e, s)

  abbrev pub gets : (Session → A) → Exec A
  gets f s = (ok (f s), s)

  -- `raise E if x is None`
  abbrev pub or_raise : Option A → Exn → Exec A
  or_raise none e = raise e
  or_raise (some a) e = pure a

-- `scalar_one_or_none()` on the rows of a query.
abbrev pub scalar_one_or_none : {A : Type 0} → List A → Exec (Option A)
scalar_one_or_none [] = pure none
scalar_one_or_none (a ∷ []) = pure (some a)
scalar_one_or_none (a ∷ b ∷ rest) = raise multiple_results

abbrev pub raise_if : Bool → Exn → Exec ⊤
raise_if c e s = (if c then raised e else ok tt, s)

abbrev pub continue : {A B : Type 0} → Result A → (A → Exec B) → Exec B
continue (ok a) f s = f a s
continue (raised e) f s = (raised e, s)

infixl 5 ◌>>=◌ ◌>>◌
abbrev pub ◌>>=◌ : {A B : Type 0} → Exec A → (A → Exec B) → Exec B
◌>>=◌ m f s = let (r, s') = m s in continue r f s'

abbrev pub ◌>>◌ : {A B : Type 0} → Exec A → Exec B → Exec B
m >> k = m >>= λ _. k

-- `session.commit()` and `session.rollback()`
abbrev pub commit : Exec ⊤
commit s = (ok tt, record s { committed = s.db })

abbrev pub rollback : Exec ⊤
rollback s = (ok tt, record s { db = s.committed })

-- `get_db`: a request's session is closed at its end, with a rollback if the handler raised; what
-- was not committed is lost either way.
unfoldable pub get_db : {A : Type 0} → Exec A → Exec A
get_db m s = let (r, s') = m s in (r, record s' { db = s'.committed })

-- `session_scope`: commits at the end, unless the block raised.
abbrev close_scope : {A : Type 0} → Result A → Session → Result A × Session
close_scope (ok a) s = (ok a, record s { committed = s.db })
close_scope (raised e) s = (raised e, record s { db = s.committed })

unfoldable pub session_scope : {A : Type 0} → Exec A → Exec A
session_scope m s = let (r, s') = m s in close_scope r s'

-- The hex text of `uuid.uuid4()`.
unfoldable pub uuid4_hex : Env → Exec String
uuid4_hex env s = (ok (env.uuid_hex s.uuids), record s { uuids = s.uuids + 1 })

-- The text of `secrets.token_hex(32)`, from the same count of random draws.
unfoldable pub token_hex : Env → Exec String
token_hex env s = (ok (env.token_hex s.uuids), record s { uuids = s.uuids + 1 })
