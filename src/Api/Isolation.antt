-- ===== src/Api/Isolation.antt =====
-- What a merchant can read of the others' payments through the routes that compare the owner.
use mathlib.Core.Path.{subst}
use ix_gateway.Errors.{
  app, payment_not_found_error, checkout_session_not_found_error, multiple_results,
}
use ix_gateway.Checkout.Outcome.{Opens, get_open_session-Opens}
use ix_gateway.Prelude.{
  refl, ◌⊎◌, All-select_test, String, true, Option, List, [], ◌∷◌, ◌≡◌, inl, inr, All, select,
  Bool-cases, leb, ◌==◌, All-select_test,
}
use ix_gateway.Models.{PaymentIntent, LedgerEntry, CheckoutSession, Merchant}
use ix_gateway.Env.{Env}
use ix_gateway.Db.{Session, Result, ok, raised}
use ix_gateway.Db.Query.{query_rule, gate_cases}
use ix_gateway.Auth.{Credentials, require_api_key}
use ix_gateway.Ledger.{is_value, insert_by_time, order_by_time, list_entries_for_intent}
use ix_gateway.Payment
use ix_gateway.Checkout.{get_open_session}
use ix_gateway.Api

module _ (P : LedgerEntry → Type 0) where
  All-insert_by_time :
      (e : LedgerEntry) (es : List LedgerEntry) → P e → All P es → All P (insert_by_time e es)
  unfolding insert_by_time
  All-insert_by_time e [] p h = (p, tt)
  All-insert_by_time e (x ∷ xs) p (q, h) = elim (Bool-cases (leb e.created_at x.created_at)) [
    | inl early ↦ rw early (p, (q, h))
    | inr late ↦ rw late (q, All-insert_by_time e xs p h)
  ]

  All-order_by_time : (es : List LedgerEntry) → All P es → All P (order_by_time es)
  unfolding order_by_time
  All-order_by_time [] h = tt
  All-order_by_time (e ∷ es) (p, h) =
      All-insert_by_time e (order_by_time es) p (All-order_by_time es h)

-- What a read of a transaction shows: an intent of the caller's own, with entries of that intent.
abbrev pub ShowsOwn :
    Env
    → Option Credentials
    → (pid : String) → Session
    → Result (PaymentIntent × List LedgerEntry) × Session
    → Type 0
ShowsOwn env header pid s (raised e, t) =
    ((require_api_key env header s).0 ≡ raised e)
    ⊎ (e ≡ app payment_not_found_error)
    ⊎ (e ≡ multiple_results)
ShowsOwn env header pid s (ok (p, es), t) =
    (m : Merchant) × ((require_api_key env header s).0 ≡ ok m)
    × (is_value p.merchant_id m.id ≡ true)
    × ((p.id == pid) ≡ true)
    × All (λ e. is_value e.payment_intent_id pid ≡ true) es

-- When the transaction route answers, it has authenticated a merchant, the intent has the id that was
-- asked for and is that merchant's, and every ledger entry in the answer is one of the intent's. When
-- it raises, its gate has, or it says that there is no such payment, whether there is none or it is
-- another's, or the query has found several rows.
pub get_transaction-ShowsOwn :
    (env : Env) (header : Option Credentials) (pid : String) (s : Session)
    → ShowsOwn env header pid s (Api.get_transaction env header pid s)
unfolding Api.get_transaction Payment.get_by_id list_entries_for_intent
get_transaction-ShowsOwn env header pid s =
    let Post = ShowsOwn env header pid s in
    let (r, t) = require_api_key env header s in
    gate_cases Post r _ t (λ e refused. inl refused)
      λ m authenticated.
        query_rule Post _ t.db.payment_intents _ t (inr (inl refl))
          (λ p row named. elim (Bool-cases (is_value p.merchant_id m.id)) [
            | inr other ↦ rw other (inr (inl refl))
            | inl own ↦ rw own (
              m,
              authenticated,
              own,
              named,
              All-order_by_time (λ e. is_value e.payment_intent_id pid ≡ true)
                  (select (λ e. is_value e.payment_intent_id pid) t.db.ledger_entries)
                  (All-select_test (λ e. is_value e.payment_intent_id pid) t.db.ledger_entries),
            )
          ])
          (inr (inr refl))

abbrev pub ShowsOwnSession :
    Env → Option Credentials → Session → Result CheckoutSession × Session → Type 0
ShowsOwnSession env header s (raised e, t) =
    ((require_api_key env header s).0 ≡ raised e) ⊎ (e ≡ app checkout_session_not_found_error)
ShowsOwnSession env header s (ok c, t) =
    (m : Merchant) × ((require_api_key env header s).0 ≡ ok m) × ((c.merchant_id == m.id) ≡ true)

-- When the checkout route answers, it has authenticated a merchant and the session is that merchant's.
-- When it raises, its gate has, or it says that there is no such session, whether there is none or it
-- is another's.
pub retrieve_checkout_session-ShowsOwnSession :
    (env : Env) (header : Option Credentials) (sid : String) (s : Session)
    → ShowsOwnSession env header s (Api.retrieve_checkout_session env header sid s)
unfolding Api.retrieve_checkout_session
retrieve_checkout_session-ShowsOwnSession env header sid s =
    let Post = ShowsOwnSession env header s in
    let (r, t) = require_api_key env header s in
    gate_cases Post r _ t (λ e refused. inl refused)
      λ m authenticated.
        let (q, u) = get_open_session sid t in
        gate_cases Post q _ u
          (λ e failed.
            inr (subst (λ x. Opens sid t (x, u)) failed (get_open_session-Opens sid t)).0)
          λ c _. elim (Bool-cases (c.merchant_id == m.id)) [
            | inr other ↦ rw other (inr refl)
            | inl own ↦ rw own (m, authenticated, own)
          ]
