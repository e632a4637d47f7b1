-- ===== src/Checkout/Upholds.antt =====
-- An invariant of the payment service under the operations of app/services/checkout_session.py.
use ix_gateway.Prelude.{
  String, ◌&&◌, Option, none, some, [], any, find, inl, inr, ltb, ◌==◌, Bool-cases,
}
use ix_gateway.Models.{CheckoutSession, Merchant, PaymentIntent}
use ix_gateway.Env.{Env}
use ix_gateway.Db.{Session, uuid4_hex, ◌>>=◌}
use ix_gateway.Db.Query.{query_rule}
use ix_gateway.Checkout.{
  CheckoutSessionCreate, get_by_id, find_by_payment_intent, add_session, set_status, new_session,
  link_session, create_session, is_open, is_completed, expire_if_stale, get_open_session,
  complete_session,
}
use ix_gateway.Payment.{PaymentIntentCreate, create_intent}
use ix_gateway.Payment.Upholds.{
  Invariant, Meets, Upholds, UpheldByPayments, Upholds-ok, Upholds-raised, bind_rule, or_raise_rule,
}

module _ {I : Invariant} where
  pub complete_session-Upholds :
      (sid : String) (s : Session)
      → Meets I s.db
      → Meets I s.committed
      → Upholds I (complete_session sid s)
  unfolding complete_session get_by_id set_status
  complete_session-Upholds sid s h k =
      or_raise_rule (find (λ c. c.id == sid) s.db.checkout_sessions) _ _ s k λ c _.
        elim (Bool-cases (is_completed c.status)) [
          | inl done ↦ rw done (Upholds-ok _ _ h k)
          | inr late ↦ rw late (record { books = (h, h) })
        ]

  expire_if_stale-Upholds :
      (c : CheckoutSession) (s : Session)
      → Meets I s.db
      → Meets I s.committed
      → Upholds I (expire_if_stale c s)
  unfolding expire_if_stale set_status
  expire_if_stale-Upholds c s h k = elim (Bool-cases (is_open c.status && ltb c.expires_at s.now)) [
    | inl stale ↦ rw stale (record { books = (h, h) })
    | inr fresh ↦ rw fresh (Upholds-ok _ _ h k)
  ]

  pub get_open_session-Upholds :
      (sid : String) (s : Session)
      → Meets I s.db
      → Meets I s.committed
      → Upholds I (get_open_session sid s)
  unfolding get_open_session get_by_id
  get_open_session-Upholds sid s h k =
      or_raise_rule (find (λ c. c.id == sid) s.db.checkout_sessions) _ _ s k
        λ c _. expire_if_stale-Upholds c s h k

  module _ (env : Env) where
    link_session-Upholds :
        (m : Merchant) (payload : CheckoutSessionCreate) (intent : PaymentIntent)
        (linked : Option CheckoutSession) (s : Session)
        → Meets I s.db
        → Meets I s.committed
        → Upholds I (link_session env m payload intent linked s)
    unfolding link_session uuid4_hex add_session
    link_session-Upholds m payload intent (some c) s h k = Upholds-ok _ _ h k
    link_session-Upholds m payload intent none s h k =
        let c = new_session m payload intent (env.uuid_hex s.uuids) s.now in
        elim (Bool-cases (any (λ q. q.id == c.id) s.db.checkout_sessions)) [
          | inl taken ↦ rw taken (Upholds-raised _ _ k)
          | inr free ↦ rw free (record { books = (h, h) })
        ]

    -- What `create_session` does after it has the intent.
    pub after_intent-Upholds :
        (m : Merchant) (payload : CheckoutSessionCreate) (intent : PaymentIntent) (t : Session)
        → Meets I t.db
        → Meets I t.committed
        → Upholds I ((find_by_payment_intent intent.id >>= link_session env m payload intent) t)
    unfolding find_by_payment_intent
    after_intent-Upholds m payload intent t x y =
        query_rule (Upholds I) _ t.db.checkout_sessions _ t
          (link_session-Upholds m payload intent none t x y)
          (λ c _ _. link_session-Upholds m payload intent (some c) t x y) (Upholds-raised _ _ y)

  module _ (env : Env) (laws : UpheldByPayments I env) where
    pub create_session-Upholds :
        (m : Merchant) (payload : CheckoutSessionCreate) (s : Session)
        → Meets I s.db
        → Meets I s.committed
        → Upholds I (create_session env m payload s)
    unfolding create_session
    create_session-Upholds m payload s h k =
        let request : PaymentIntentCreate = record {
          amount = payload.amount;
          currency = payload.currency;
          idempotency_key = payload.idempotency_key;
          customer_id = none;
          description = payload.description;
          metadata = [];
        } in
        let (r, t) = create_intent env request (some m.id) s in
        bind_rule r _ t (laws.creates request (some m.id) s h k)
          λ intent x y. after_intent-Upholds env m payload intent t x y
