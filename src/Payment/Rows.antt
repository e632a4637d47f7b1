-- ===== src/Payment/Rows.antt =====
-- app/services/payment.py: the bodies, the table of intents and its queries, and the accounts.
use ix_gateway.Prelude.{
  ℕ, String, Bool, false, ◌&&◌, ◌||◌, Option, none, some, List, [], ◌∷◌, ◌++◌, any, select, ⊤, ◌==◌,
  if◌then◌else◌,
}
use ix_gateway.Prelude.Int.{ℤ, eqb_ℤ}
use ix_gateway.Prelude.Text.{or_default, concat}
use ix_gateway.Errors.{integrity_error}
use ix_gateway.Models.{Metadata, PaymentIntent, status_is}
use ix_gateway.Db.{Exec, ok, raised, gets, scalar_one_or_none, ◌>>=◌}
use ix_gateway.Ledger.{is_value}

-- The request bodies of app/schemas/payment.py.
pub record PaymentIntentCreate : Type 0 where
  pub amount : ℤ
  pub currency : String
  pub idempotency_key : String
  pub customer_id : Option String
  pub description : Option String
  pub metadata : Metadata

pub record PaymentIntentConfirm : Type 0 where
  pub idempotency_key : String
  pub payment_method_id : String

pub record PaymentIntentCancel : Type 0 where
  pub idempotency_key : String
  pub reason : Option String

-- `_find_by_idempotency_key`
unfoldable pub find_by_idempotency_key : String → Exec (Option PaymentIntent)
find_by_idempotency_key key = do
  rows ← gets (λ s. select (λ p. p.idempotency_key == key) s.db.payment_intents)
  scalar_one_or_none rows

unfoldable pub get_by_id : String → Exec (Option PaymentIntent)
get_by_id pid = do
  rows ← gets (λ s. select (λ p. p.id == pid) s.db.payment_intents)
  scalar_one_or_none rows

unfoldable pub find_by_stripe_id : String → Exec (Option PaymentIntent)
find_by_stripe_id sid = do
  rows ← gets (λ s. select (λ p. is_value p.stripe_payment_intent_id sid) s.db.payment_intents)
  scalar_one_or_none rows

abbrev pub same_value : Option String → Option String → Bool
same_value none v = false
same_value (some x) v = is_value v x

-- The unique columns of the table: the flush of a row that repeats one raises `IntegrityError`.
abbrev pub conflicts : PaymentIntent → PaymentIntent → Bool
conflicts p q =
    q.id == p.id
    || q.idempotency_key == p.idempotency_key
    || same_value q.stripe_payment_intent_id p.stripe_payment_intent_id

-- `session.add(intent)` and `session.flush()`
unfoldable pub add_intent : PaymentIntent → Exec ⊤
add_intent p s =
    if any (conflicts p) s.db.payment_intents
    then (raised integrity_error, s)
    else (ok tt, record s { db = record s.db { payment_intents = s.db.payment_intents ++ p ∷ [] } })

-- The columns that the program changes in a row; without a change no UPDATE is sent, and the
-- database does not set `updated_at`.
abbrev pub unchanged : PaymentIntent → PaymentIntent → Bool
unchanged old new =
    status_is old.status new.status
    && eqb_ℤ old.amount_received new.amount_received
    && eqb_ℤ old.amount_refunded new.amount_refunded

abbrev pub stamped : ℕ → PaymentIntent → PaymentIntent → PaymentIntent
stamped now old new = record new { updated_at = if unchanged old new then old.updated_at else now }

abbrev pub replace_intent : PaymentIntent → List PaymentIntent → List PaymentIntent
replace_intent p [] = []
replace_intent p (q ∷ rest) = (if q.id == p.id then p else q) ∷ replace_intent p rest

-- The assignments to a row and the flush that writes them.
unfoldable pub save_intent : PaymentIntent → PaymentIntent → Exec PaymentIntent
save_intent old new s =
    let p = stamped s.now old new in
    (
      ok p,
      record s { db = record s.db { payment_intents = replace_intent p s.db.payment_intents } },
    )

-- The accounts.
abbrev pub payments_authorised : String
payments_authorised = "payments_authorised"

abbrev pub payments_captured : String
payments_captured = "payments_captured"

unfoldable pub customer_pending : Option String → String
customer_pending customer = concat "customer_pending:" (or_default customer "anon")

unfoldable pub customer_account : Option String → String
customer_account customer = concat "customer:" (or_default customer "anon")
