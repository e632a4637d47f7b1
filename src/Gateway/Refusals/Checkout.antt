-- ===== src/Gateway/Refusals/Checkout.antt =====
-- A creation of a checkout session that raises: its intent may have been committed before.
use ix_gateway.Prelude.{
  String, Option, some, List, [], ◌∷◌, ◌++◌, ◌≡◌, refl, sym, ◌∙◌, ap, ◌⊎◌, inl, inr, All, length,
  ◌+◌,
}
use ix_gateway.Models.{PaymentIntent, LedgerEntry, Merchant}
use ix_gateway.Env.{Env}
use ix_gateway.Db.{Session, Result, ok, raised, continue, or_raise, ◌>>=◌}
use ix_gateway.Errors.{validation_error}
use ix_gateway.Auth.{Credentials, require_api_key}
use ix_gateway.Auth.Upholds.{require_api_key-Upholds}
use ix_gateway.Schemas.{check_session}
use ix_gateway.Ledger.{entries_of}
use ix_gateway.Ledger.Record.{pair_entries}
use ix_gateway.Payment.{PaymentIntentCreate, customer_pending, payments_authorised, create_intent}
use ix_gateway.Payment.CreateOutcome.{CreatesRow, CreateOutcomes, create_intent-CreateOutcomes}
use ix_gateway.Payment.Upholds.{OnPayments, Meets, Upholds}
use ix_gateway.Payment.Life.{Tables}
use ix_gateway.Checkout.{
  CheckoutSessionCreate, create_session, find_by_payment_intent, link_session,
}
use ix_gateway.Checkout.Upholds.{after_intent-Upholds}
use ix_gateway.ApiKeys.Upholds.{OnPayments-UpheldByKeys}
use ix_gateway.Api
use ix_gateway.Gateway.Refusals.Calls.{Spared, or_raise-Spared, Upholds-Spared}

-- One intent more than before, with two entries more, both of that intent.
pub record IsOneOrder (b c : Tables) : Type 0 where
  pub intent : PaymentIntent
  pub opened : c.0 ≡ b.0 ++ intent ∷ []
  pub entries : List LedgerEntry
  pub booked : c.1 ≡ b.1 ++ entries
  pub two : length entries ≡ 2
  pub owned : All (λ e. (e.amount ≡ intent.amount) × (e.payment_intent_id ≡ some intent.id)) entries

abbrev pub AtOrOrdered : Tables → List PaymentIntent → List LedgerEntry → Type 0
AtOrOrdered b ps es = ((ps, es) ≡ b) ⊎ IsOneOrder b (ps, es)

abbrev pub IsAt : Tables → List PaymentIntent → List LedgerEntry → Type 0
IsAt b ps es = (ps, es) ≡ b

module _ (env : Env) (b : Tables) where
  module _ (payload : PaymentIntentCreate) (mid : Option String) (s : Session)
      (here : Meets (OnPayments (IsAt b)) s.db)
      (there : Meets (OnPayments (IsAt b)) s.committed) where
    CreatesRow-IsOneOrder :
        (p : PaymentIntent) (t : Session)
        → CreatesRow env payload mid s p t
        → IsOneOrder b (t.db.payment_intents, t.db.ledger_entries)
    unfolding entries_of
    CreatesRow-IsOneOrder p t row =
        let es =
          pair_entries env (customer_pending payload.customer_id) payments_authorised payload.amount
            payload.currency (some p.id) (some "payment_intent.created") []
            (record s { uuids = s.uuids + 1 }) in
        let same : payload.amount ≡ p.amount = ap (λ (q : PaymentIntent). q.amount) (sym row.row) in
        record {
          intent = p;
          opened = row.table ∙ ap (λ (x : Tables). x.0 ++ p ∷ []) here;
          entries = es;
          booked = row.booked ∙ ap (λ (x : Tables). x.1 ++ es) here;
          two = refl;
          owned = ((same, refl), ((same, refl), tt));
        }

    -- After the intent both views of the tables are as they were or have the order.
    after_create :
        (m : Merchant) (body : CheckoutSessionCreate) (o : Result PaymentIntent × Session)
        → CreateOutcomes env payload mid s o
        → Spared (OnPayments (AtOrOrdered b)) (
            continue o.0
              (λ intent. find_by_payment_intent intent.id >>= link_session env m body intent)
              o.1)
    after_create m body (raised e, t) same = record { spares = inl (rw same there) }
    after_create m body (ok p, t) (inl (_, _, same)) =
        Upholds-Spared _
          (after_intent-Upholds env m body p t (inl (rw same here)) (inl (rw same there)))
    after_create m body (ok p, t) (inr row) =
        let made = CreatesRow-IsOneOrder p t row in
        Upholds-Spared _
          (after_intent-Upholds env m body p t (inr made) (inr (rw row.committed made)))

  pub create_checkout_session-Spared :
      (c : Option Credentials) (body : CheckoutSessionCreate) (s : Session)
      → Meets (OnPayments (IsAt b)) s.db
      → Meets (OnPayments (IsAt b)) s.committed
      → Spared (OnPayments (AtOrOrdered b)) (Api.create_checkout_session env c body s)
  unfolding Api.create_checkout_session create_session
  create_checkout_session-Spared c body s h k =
      let (r, t) = require_api_key env c s in
      gated r t (require_api_key-Upholds env (OnPayments-UpheldByKeys env) c s h k)
    where
      gated :
          (r : Result Merchant) (t : Session)
          → Upholds (OnPayments (IsAt b)) (r, t)
          → Spared (OnPayments (AtOrOrdered b)) (
              continue r
                (λ m. or_raise (check_session body) (validation_error) >>= create_session env m)
                t)
      gated (raised e) t safe = record { spares = inl safe.books }
      gated (ok m) t safe = or_raise-Spared (check_session body) _ _ t (inl safe.books.1) λ payload.
          after_create _ (some m.id) t safe.books.0 safe.books.1 m payload
            (create_intent env _ (some m.id) t) (create_intent-CreateOutcomes env _ (some m.id) t)
