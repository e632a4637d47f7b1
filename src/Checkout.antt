-- ===== src/Checkout.antt =====
-- app/services/checkout_session.py: hosted checkout sessions over payment intents.
pub mod Upholds
pub mod Outcome
mod Tests
use ix_gateway.Prelude.{
  ℕ, ◌+◌, ◌*◌, String, Bool, true, false, ◌&&◌, Option, none, some, List, [], ◌∷◌, ◌++◌, any, find,
  select, ⊤, ltb, ◌==◌, if◌then◌else◌,
}
use ix_gateway.Prelude.Int.{ℤ}
use ix_gateway.Prelude.Text.{lower, concat}
use ix_gateway.Errors.{app, integrity_error, checkout_session_not_found_error}
use ix_gateway.Models.{
  CheckoutSession, CheckoutSessionStatus, open_status, completed, expired, Merchant, PaymentIntent,
}
use ix_gateway.Env.{Env}
use ix_gateway.Db.{
  Exec, ok, raised, pure, gets, or_raise, scalar_one_or_none, commit, uuid4_hex, ◌>>=◌, ◌>>◌,
}
use ix_gateway.Ledger.{is_value}
use ix_gateway.Payment.{create_intent}

-- The request body of app/schemas/checkout_session.py.
pub record CheckoutSessionCreate : Type 0 where
  pub amount : ℤ
  pub currency : String
  pub idempotency_key : String
  pub description : Option String
  pub success_url : Option String

-- `_default_expires_at`: 24 hours from now, in seconds.
unfoldable pub default_expires_at : ℕ → ℕ
default_expires_at now = now + 24 * 3600

abbrev pub is_open : CheckoutSessionStatus → Bool
is_open open_status = true
is_open _ = false

abbrev pub is_completed : CheckoutSessionStatus → Bool
is_completed completed = true
is_completed _ = false

unfoldable pub get_by_id : String → Exec (Option CheckoutSession)
get_by_id sid = gets (λ s. find (λ c. c.id == sid) s.db.checkout_sessions)

unfoldable pub find_by_payment_intent : String → Exec (Option CheckoutSession)
find_by_payment_intent pid = do
  rows ← gets (λ s. select (λ c. is_value c.payment_intent_id pid) s.db.checkout_sessions)
  scalar_one_or_none rows

-- `session.add(cs)`, written by the flush of the commit that follows.
unfoldable pub add_session : CheckoutSession → Exec ⊤
add_session c s =
    if any (λ q. q.id == c.id) s.db.checkout_sessions then (raised integrity_error, s) else (
      ok tt,
      record s { db = record s.db { checkout_sessions = s.db.checkout_sessions ++ c ∷ [] } },
    )

abbrev pub replace_session : CheckoutSession → List CheckoutSession → List CheckoutSession
replace_session c [] = []
replace_session c (q ∷ rest) = (if q.id == c.id then c else q) ∷ replace_session c rest

-- `cs.status = status` and the UPDATE, which sets `updated_at`.
unfoldable pub set_status : CheckoutSessionStatus → CheckoutSession → Exec CheckoutSession
set_status status c s =
    let c' = record c { status = status; updated_at = s.now } in
    (
      ok c',
      record s {
        db = record s.db { checkout_sessions = replace_session c' s.db.checkout_sessions };
      },
    )

-- The row that `CheckoutSession(...)` builds, with the columns' defaults.
abbrev pub new_session :
    Merchant → CheckoutSessionCreate → PaymentIntent → String → ℕ → CheckoutSession
new_session merchant payload intent hex now = record {
  id = concat "cs_" hex;
  merchant_id = merchant.id;
  payment_intent_id = some intent.id;
  amount = payload.amount;
  currency = lower payload.currency;
  description = payload.description;
  status = open_status;
  success_url = payload.success_url;
  expires_at = default_expires_at now;
  created_at = now;
  updated_at = now;
}

module _ (env : Env) where
  pub link_session :
      Merchant
      → CheckoutSessionCreate
      → PaymentIntent
      → Option CheckoutSession
      → Exec CheckoutSession
  link_session merchant payload intent (some existing) = pure existing
  link_session merchant payload intent none = do
    hex ← uuid4_hex env
    now ← gets (λ s. s.now)
    let c = new_session merchant payload intent hex now
    add_session c
    commit
    pure c

  unfoldable pub create_session : Merchant → CheckoutSessionCreate → Exec CheckoutSession
  create_session merchant payload = do
    intent ←
        create_intent env
          (record {
            amount = payload.amount;
            currency = payload.currency;
            idempotency_key = payload.idempotency_key;
            customer_id = none;
            description = payload.description;
            metadata = [];
          })
          (some merchant.id)
    existing ← find_by_payment_intent intent.id
    link_session merchant payload intent existing

-- Past the 24 hours an open session expires at the first read.
unfoldable pub expire_if_stale : CheckoutSession → Exec CheckoutSession
expire_if_stale c s =
    if is_open c.status && ltb c.expires_at s.now
    then (set_status expired c >>= λ c'. commit >> pure c') s
    else (ok c, s)

unfoldable pub get_open_session : String → Exec CheckoutSession
get_open_session sid = do
  found ← get_by_id sid
  c ← or_raise found (app checkout_session_not_found_error)
  expire_if_stale c

unfoldable pub complete_session : String → Exec CheckoutSession
complete_session sid = do
  found ← get_by_id sid
  c ← or_raise found (app checkout_session_not_found_error)
  if is_completed c.status then pure c else set_status completed c >>= λ c'. commit >> pure c'
